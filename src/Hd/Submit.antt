-- ===== src/Hd/Submit.antt =====
-- Which request submit_request of src/drivers/hd.c sends to the controller.
use bless_os.Prelude.{ℕ, ◌≡◌, ◌≢◌, refl, ap, List, [], ◌∷◌, ◌++◌, ok}
use bless_os.Pata.{Status, hd_rw}
use bless_os.Hd.{Request, Disk, Submitted, command_of, submit_request}
use bless_os.Hd.Listed.{Apart, Linked, Holds}
use bless_os.Hd.Switch.{switch_queues-moves}

-- The first request of a list followed by one more.
abbrev pub first : List ℕ → ℕ → ℕ
first [] req = req
first (a ∷ js) req = a

head-first :
    (js : List ℕ) (req : ℕ) (r : ℕ → Request) (v : ℕ)
    → Linked r v (js ++ (req ∷ []))
    → v ≡ first js req
head-first [] req r v c = c.0
head-first (a ∷ js) req r v c = c.0

-- What `hd_rw` sends for a request.
abbrev pub command : Request → Status → List (ℕ × ℕ) → List (ℕ × ℕ)
command req status sent =
    (hd_rw req.hd req.nsector req.sector req.head req.cyl (command_of req.type) status sent).0

-- For two different queues that share no request, `submit_request` moves the oldest pending request
-- behind those that are executing, and what it sends is the command of the first executing one: if
-- some were executing before, that is not the one it moved.
pub submit_request-first :
    (pending executing req : ℕ) (ids js : List ℕ) (status : Status) (sent : List (ℕ × ℕ)) {d : Disk}
    → pending ≢ 0
    → executing ≢ 0
    → pending ≢ executing
    → Apart js (req ∷ ids)
    → Holds d pending (req ∷ ids)
    → Holds d executing js
    → (s : Submitted) × (submit_request pending executing status sent d ≡ ok s)
      × Holds s.disk pending ids
      × Holds s.disk executing (js ++ (req ∷ []))
      × (s.sent ≡ command (s.disk.request (first js req)) status sent)
unfolding submit_request
submit_request-first pending executing req ids js status sent {d} np ne apart_queues apart h k =
    let (d', done, left, moved) =
      switch_queues-moves pending executing req ids js np ne apart_queues apart h k in
    rw (done, submit_request)
      (
        _,
        refl,
        left,
        moved,
        ap (λ a. command (d'.request a) status sent)
            (head-first js req d'.request (d'.queue executing).head moved.linked),
      )
