-- ===== src/Clock/Tests.antt =====
-- A clock with 12 hours, at noon.
use ki_os.Base.{◌≡◌, refl, arith}
use ki_os.Clock.{DateTime, displayed, twelve_hours, displayed-twelve}

abbrev noon : DateTime
noon = record { second = 0; minute = 0; hour = twelve_hours 12; day = 1; month = 1; year = 0x26 }

displayed-twelve_example : (displayed 0 noon).hour ≡ 0
displayed-twelve_example = displayed-twelve 0 12 noon refl refl (omega arith) refl
