-- ===== src/Input/Ring/Tests.antt =====
-- An empty ring buffer, and two interrupts, the second after the reader's test.
use ki_os.Base.{ℕ, ◌≡◌, ◌≢◌, refl, List, [], ◌++◌, arith, replicate}
use ki_os.Input.Ring.{Ring, irq_handler}
use ki_os.Input.Ring.Queue.{IsValid, contents}
use ki_os.Input.Ring.Interleave.{tested, Reach, start, next, irq, test, take_in, first_in_first_out}

abbrev ring : Ring
ring = record { buffer = replicate 256 0; read = 0; write = 0 }

ring-IsValid : IsValid ring
ring-IsValid = record { storage = refl; read_in = omega arith; write_in = omega arith }

-- The buffer after one interrupt and after two.
abbrev once : Ring
once = irq_handler 30 ring

abbrev twice : Ring
twice = irq_handler 31 once

abbrev taken : List ℕ
taken = take_in once (take_in ring (contents ring) 30) 31

nonempty : once.read ≢ once.write
unfolding irq_handler
nonempty = omega arith

reached : Reach ring (record { ring = twice; pc = tested; accepted = taken; delivered = [] })
reached = next (next (next start (irq 30)) (test refl nonempty)) (irq 31)

first_in_first_out_example : ([] ++ contents twice ≡ taken) × IsValid twice
first_in_first_out_example = first_in_first_out ring-IsValid reached
