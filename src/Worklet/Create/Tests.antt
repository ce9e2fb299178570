-- ===== src/Worklet/Create/Tests.antt =====
-- A worklet of src/worklet.c whose state gets no memory.
use bare_kit.Prelude.{◌≡◌, negsuc, true, false, none}
use bare_kit.Ring.{Message}
use bare_kit.Worklet.Create.{create, left_over, IsHandle, create-left_over}

abbrev blank : Message
blank = record { base = none; len = 0 }

create-left_over_example :
    let r = create true false true (λ i. blank) (λ i. blank) in
    (r.code ≡ negsuc 0) × IsHandle false r.handle × (left_over true false r ≡ 0)
create-left_over_example = create-left_over true false true (λ i. blank) (λ i. blank)
