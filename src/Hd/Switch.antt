-- ===== src/Hd/Switch.antt =====
-- What each operation of src/drivers/hd.c makes of the requests that the queues hold.
use bless_os.Prelude.{
  ℕ, ◌+◌, ◌%◌, ◌≡◌, ◌≢◌, refl, sym, ap, has, last, ◌==◌, ◌||◌, if◌then◌else◌, true, false, List, [],
  ◌∷◌, ◌++◌, pos, arith, u32_mod,
}
use bless_os.Hd.{
  Disk, put_queue, link, is_queue_empty, add_request_to_queue, remove_request_from_queue,
  switch_queues,
}
use bless_os.Hd.Listed.{
  Apart, last-snoc, Distinct-snoc, last-Apart, not-has-Apart, Apart-tail, Holds, Linked-put_request,
  Linked-link,
}

-- A request other than NULL that the queue does not hold is appended to it, and the count goes up
-- by one, modulo 2^32.
pub add_request_to_queue-append :
    (q req : ℕ) (ids : List ℕ) {d : Disk}
    → q ≢ 0
    → req ≢ 0
    → has req ids ≡ false
    → Holds d q ids
    → let (status, d') = add_request_to_queue q req d in
      (status ≡ pos 0)
      × Holds d' q (ids ++ (req ∷ []))
      × ((d'.queue q).size ≡ ((d.queue q).size + 1) % u32_mod)
unfolding add_request_to_queue
add_request_to_queue-append q req [] {d} nq nr out h =
    let valid : (q == 0) ≡ false = ground arith in
    let empty : is_queue_empty (d.queue q) ≡ true = ground (arith, h.linked, h.tail) in
    let self : (q == q) ≡ true = ground arith in
    let this : (req == req) ≡ true = ground arith in
    rw (valid, add_request_to_queue, empty, self)
      (
        refl,
        record {
          linked = rw (self, this) (refl, nr, refl);
          tail = rw self refl;
          distinct = (refl, tt);
        },
        refl,
      )
add_request_to_queue-append q req (a ∷ ids) {d} nq nr out h =
    let valid : (q == 0) ≡ false = ground arith in
    let filled : is_queue_empty (d.queue q) ≡ false = ground (arith, h.linked) in
    let self : (q == q) ≡ true = ground arith in
    let this : (req == req) ≡ true = ground arith in
    let head = (d.queue q).head in
    let reset = link req 0 d in
    let kept =
      Linked-put_request req (record (d.request req) { next = 0 }) d head (a ∷ ids) out h.linked in
    let ends : (reset.request req).next ≡ 0 = rw this refl in
    rw (valid, add_request_to_queue, filled, self, h.tail)
      (
        refl,
        record {
          linked = rw self (Linked-link req a ids reset head nr out h.distinct ends kept);
          tail = rw self (sym (last-snoc a req ids));
          distinct = Distinct-snoc req (a ∷ ids) out h.distinct;
        },
        refl,
      )

-- What is added to one queue leaves another as it was.
add_request_to_queue-other :
    (q req p : ℕ) (ids js : List ℕ) {d : Disk}
    → q ≢ 0
    → p ≢ q
    → has req js ≡ false
    → Apart ids js
    → Holds d q ids
    → Holds d p js
    → Holds (add_request_to_queue q req d).1 p js
unfolding add_request_to_queue
add_request_to_queue-other q req p [] js {d} nq np out apart h k =
    let valid : (q == 0) ≡ false = ground arith in
    let empty : is_queue_empty (d.queue q) ≡ true = ground (arith, h.linked, h.tail) in
    let else_where : (q == p) ≡ false = ground arith in
    rw (valid, add_request_to_queue, empty)
      (record {
        linked = rw else_where (
            Linked-put_request req (record (d.request req) { next = 0 }) d (d.queue p).head js out
              k.linked);
        tail = rw else_where k.tail;
        distinct = k.distinct;
      })
add_request_to_queue-other q req p (a ∷ ids) js {d} nq np out apart h k =
    let valid : (q == 0) ≡ false = ground arith in
    let filled : is_queue_empty (d.queue q) ≡ false = ground (arith, h.linked) in
    let else_where : (q == p) ≡ false = ground arith in
    let reset = link req 0 d in
    let kept =
      Linked-put_request req (record (d.request req) { next = 0 }) d (d.queue p).head js out
        k.linked in
    rw (valid, add_request_to_queue, filled, h.tail)
      (record {
        linked = rw else_where (
            Linked-put_request (last a ids) (record (reset.request (last a ids)) { next = req })
              reset (d.queue p).head js (last-Apart a ids js apart) kept);
        tail = rw else_where k.tail;
        distinct = k.distinct;
      })

-- What a removal leaves: the oldest request is handed out, and the count is as it was.
abbrev pub removed : ℕ → Disk → Disk
removed q d =
    let p = (d.request (d.queue q).head).next in
    put_queue q (record (d.queue q) { head = p; tail = if p == 0 then 0 else (d.queue q).tail }) d

remove_request_from_queue-removed :
    (q req : ℕ) (ids : List ℕ) {d : Disk}
    → q ≢ 0
    → Holds d q (req ∷ ids)
    → remove_request_from_queue q d ≡ (req, removed q d)
unfolding remove_request_from_queue
remove_request_from_queue-removed q req ids {d} nq h =
    let valid : (q == 0) ≡ false = ground arith in
    let filled : is_queue_empty (d.queue q) ≡ false = ground (arith, h.linked) in
    rw (valid, remove_request_from_queue, filled) (ap (λ r. (r, removed q d)) h.linked.0)

removed-Holds :
    (q req : ℕ) (ids : List ℕ) {d : Disk} → Holds d q (req ∷ ids) → Holds (removed q d) q ids
removed-Holds q req [] {d} h =
    let self : (q == q) ≡ true = ground arith in
    let ends : (d.request (d.queue q).head).next ≡ 0 = h.linked.2 in
    record { linked = rw (self, ends) refl; tail = rw (self, ends) refl; distinct = tt }
removed-Holds q req (b ∷ ids) {d} h =
    let self : (q == q) ≡ true = ground arith in
    let goes : ((d.request (d.queue q).head).next == 0) ≡ false = ground (arith, h.linked) in
    record { linked = rw self h.linked.2; tail = rw (self, goes) h.tail; distinct = h.distinct.1 }

removed-other : (q p : ℕ) (js : List ℕ) {d : Disk} → p ≢ q → Holds d p js → Holds (removed q d) p js
removed-other q p js {d} np k =
    let else_where : (q == p) ≡ false = ground arith in
    record { linked = rw else_where k.linked; tail = rw else_where k.tail; distinct = k.distinct }

-- A queue that holds requests gives its oldest one and keeps the others; its count `size` does not
-- go down.
pub remove_request_from_queue-oldest :
    (q req : ℕ) (ids : List ℕ) {d : Disk}
    → q ≢ 0
    → Holds d q (req ∷ ids)
    → (d' : Disk) × (remove_request_from_queue q d ≡ (req, d'))
      × Holds d' q ids
      × ((d'.queue q).size ≡ (d.queue q).size)
remove_request_from_queue-oldest q req ids {d} nq h =
    let self : (q == q) ≡ true = ground arith in
    (
      removed q d,
      remove_request_from_queue-removed q req ids nq h,
      removed-Holds q req ids h,
      rw self refl,
    )

-- Between two different queues that share no request, `switch_queues` succeeds and moves the oldest
-- request of the source to the end of the target.
pub switch_queues-moves :
    (source target req : ℕ) (ids js : List ℕ) {d : Disk}
    → source ≢ 0
    → target ≢ 0
    → source ≢ target
    → Apart js (req ∷ ids)
    → Holds d source (req ∷ ids)
    → Holds d target js
    → (d' : Disk) × (switch_queues source target d ≡ (pos 0, d'))
      × Holds d' source ids
      × Holds d' target (js ++ (req ∷ []))
unfolding switch_queues
switch_queues-moves source target req ids js {d} ns nt ne apart h k =
    let valid : (source == 0 || target == 0) ≡ false = ground arith in
    let filled : is_queue_empty (d.queue source) ≡ false = ground (arith, h.linked) in
    let some_request : (req == 0) ≡ false = ground (arith, h.linked) in
    let d₁ = removed source d in
    let from = removed-Holds source req ids h in
    let to = removed-other source target js (λ e. ne (sym e)) k in
    let out = not-has-Apart req js ids apart in
    let (done, moved, count) = add_request_to_queue-append target req js nt (ground arith) out to in
    (
      (add_request_to_queue target req d₁).1,
      rw
          (
            valid,
            switch_queues,
            filled,
            remove_request_from_queue-removed source req ids ns h,
            some_request,
          )
          refl,
      add_request_to_queue-other target req source js ids nt ne h.distinct.0
          (Apart-tail req js ids apart) to from,
      moved,
    )
