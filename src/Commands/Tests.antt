-- ===== src/Commands/Tests.antt =====
-- The command line "echo hi", the report on a machine with two pages, the first of them used, and the
-- memory tests on a machine with 122 free pages.
use ki_os.Base.{
  ℕ, ◌≡◌, ◌≤◌, ◌*◌, ◌/◌, ◌⊎◌, some, none, inl, ap, length, List, [], ◌∷◌, All, arith, refl,
}
use ki_os.Base.Bytes.{bytes}
use ki_os.Base.Tally.{tally}
use ki_os.Commands.Table.{Entry, cmd_echo, shell_commands}
use ki_os.Commands.Memtest.{memtest}
use ki_os.Commands.Memtest.Runs.{Checked, memtest_lem}
use ki_os.Commands.Report.{cmd_meminfo}
use ki_os.Commands.Report.Meminfo.{numbers, cmd_meminfo_lem}
use ki_os.Commands.Table.Names.{command_names, name_of, entry_at, command_chosen}
use ki_os.Commands.Vmtest.{cmd_vmtest}
use ki_os.Commands.Vmtest.Runs.{Tested, cmd_vmtest_lem}
use ki_os.Mm.Vmm.Sample.{sample, sample_area, sample-IsTree}
use ki_os.Console.Output.{Call, dec, text, line}
use ki_os.Console.Output.Screens.{AllDefined}
use ki_os.Console.Shell.{execute, runs}
use ki_os.Console.Shell.Words.{Splits}
use ki_os.Mm.Heap.{Heap, heap_start}
use ki_os.Mm.Heap.Blocks
use ki_os.Mm.Pmm.{Pmm}
use ki_os.Mm.Pmm.View
use ki_os.Text.Compare.{IsChar}

abbrev typed : List ℕ
typed = bytes "echo hi"

typed-chars : All IsChar typed
typed-chars = (
  (omega arith, omega arith),
  (
    (omega arith, omega arith),
    (
      (omega arith, omega arith),
      (
        (omega arith, omega arith),
        (
          (omega arith, omega arith),
          ((omega arith, omega arith), ((omega arith, omega arith), tt)),
        ),
      ),
    ),
  ),
)

typed-Splits : Splits typed (name_of cmd_echo) (bytes "hi")
unfolding name_of
typed-Splits = record {
  before = [];
  after = b' ' ∷ [];
  parts = refl;
  blank_before = tt;
  blank_after = (refl, tt);
  solid = (omega arith, (omega arith, (omega arith, (omega arith, tt))));
  filled = λ e. absurd (omega (arith, ap length e));
  trimmed = omega arith;
  parted = inl (λ e. absurd (omega (arith, ap length e)));
}

command_chosen_example :
    (i : ℕ) × (e : Entry) × (execute command_names typed ≡ runs i (bytes "hi"))
    × (entry_at i shell_commands ≡ some e)
    × (e.func ≡ cmd_echo)
command_chosen_example = command_chosen cmd_echo typed (bytes "hi") typed-chars typed-Splits

abbrev pages : Pmm
pages = record { bitmap = 1 ∷ []; total_pages = 2; used_pages = 1 }

pages-IsValid : View.IsValid pages
unfolding tally
pages-IsValid = record {
  bytes = (omega arith, tt);
  covers = omega arith;
  small = omega arith;
  counted = refl;
}

abbrev heap : Heap
heap = record {
  machine = record { pmm = pages; mem = λ a. 0; pml4 = 0x1000 };
  current_ptr = heap_start;
  total_alloc = 0;
}

heap-IsValid : Blocks.IsValid heap
heap-IsValid = record {
  above = omega arith;
  below = omega arith;
  aligned = omega arith;
  counted = omega arith;
}

cmd_meminfo_lem_example :
    (numbers (cmd_meminfo heap).0 ≡ 2 ∷ 8 ∷ 1 ∷ 4 ∷ 1 ∷ 4 ∷ [])
    × AllDefined (cmd_meminfo heap).0
    × (((pages.total_pages ≡ 0) × ((cmd_meminfo heap).1 ≡ none))
        ⊎ ((rest : List Call) × ((cmd_meminfo heap).1
              ≡ some (
                  text "  Usage:        "
                  ∷ dec (pages.used_pages * 100 / pages.total_pages)
                  ∷ line "%"
                  ∷ rest))
            × (pages.used_pages * 100 / pages.total_pages ≤ 100)
            × (numbers rest ≡ 0 ∷ 0 ∷ 0 ∷ [])
            × AllDefined rest))
cmd_meminfo_lem_example = cmd_meminfo_lem heap pages-IsValid heap-IsValid

cmd_vmtest_lem_example : Tested sample_area sample (cmd_vmtest sample)
cmd_vmtest_lem_example = cmd_vmtest_lem sample-IsTree (omega arith)

abbrev roomy : Heap
roomy = record { machine = sample; current_ptr = heap_start; total_alloc = 0 }

memtest_lem_example : Checked sample_area roomy (memtest roomy)
memtest_lem_example = memtest_lem roomy (omega arith) sample-IsTree
