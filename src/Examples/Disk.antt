-- ===== src/Examples/Disk.antt =====
-- The disk's requests and its controller.
use bless_os.Prelude.{ℕ, ◌≡◌, refl, some, [], ◌∷◌, arith, ◌==◌, if◌then◌else◌, pos, ok}
use bless_os.Pata.{Status, pata_wait, hd_rw, hd_command}
use bless_os.Pata.Wait.{idle_within, pata_wait-idle_within}
use bless_os.Pata.Ready.{first_ready, hd_rw-first_ready}
use bless_os.Hd.{Request, hd_request_type_read, Disk, Submitted, switch_queues, submit_request}
use bless_os.Hd.Listed.{Apart, Holds}
use bless_os.Hd.Switch.{switch_queues-moves}
use bless_os.Hd.Submit.{command, submit_request-first}

-- A controller that is always ready, and one that never is.
abbrev ready : Status
ready i = 0x40

abbrev busy : Status
busy i = 0xc0

pata_wait-idle_within_example : pata_wait 0 busy ≡ some (if idle_within 6 0 busy then 0 else 0xc0)
pata_wait-idle_within_example = pata_wait-idle_within 0 busy

hd_rw-first_ready_example :
    (hd_rw 0 1 2 0 3 0x20 busy []).0
    ≡ (if first_ready 10000 0 busy == 9999 then [] else hd_command 0 1 2 0 3 0x20 [])
hd_rw-first_ready_example = hd_rw-first_ready 0 1 2 0 3 0x20 busy []

abbrev a_request : ℕ → Request
a_request link = record {
  hd = 1;
  nsector = 1;
  sector = 5;
  head = 0;
  cyl = 9;
  type = hd_request_type_read;
  errors = 0;
  bh = 0;
  next = link;
}

-- The queue at 8 holds the requests at 100 and 200, the queue at 16 the one at 300.
abbrev disk : Disk
disk = record {
  request = λ a. a_request (if a == 100 then 200 else 0);
  queue = λ q.
      if q == 8
      then record { size = 2; head = 100; tail = 200 }
      else record { size = 1; head = 300; tail = 300 };
  panics = 0;
}

pending-Holds : Holds disk 8 (100 ∷ 200 ∷ [])
pending-Holds = record {
  linked = (refl, omega arith, (refl, omega arith, refl));
  tail = refl;
  distinct = (refl, (refl, tt));
}

executing-Holds : Holds disk 16 (300 ∷ [])
executing-Holds = record { linked = (refl, omega arith, refl); tail = refl; distinct = (refl, tt) }

apart : Apart (300 ∷ []) (100 ∷ 200 ∷ [])
apart = (refl, tt)

switch_queues-moves_example :
    (d' : Disk) × (switch_queues 8 16 disk ≡ (pos 0, d'))
    × Holds d' 8 (200 ∷ [])
    × Holds d' 16 (300 ∷ 100 ∷ [])
switch_queues-moves_example =
    switch_queues-moves 8 16 100 (200 ∷ []) (300 ∷ []) (omega arith) (omega arith) (omega arith)
      apart pending-Holds executing-Holds

submit_request-first_example :
    (s : Submitted) × (submit_request 8 16 ready [] disk ≡ ok s)
    × Holds s.disk 8 (200 ∷ [])
    × Holds s.disk 16 (300 ∷ 100 ∷ [])
    × (s.sent ≡ command (s.disk.request 300) ready [])
submit_request-first_example =
    submit_request-first 8 16 100 (200 ∷ []) (300 ∷ []) ready [] (omega arith) (omega arith)
      (omega arith) apart pending-Holds executing-Holds
