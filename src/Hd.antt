-- ===== src/Hd.antt =====
-- src/drivers/hd.c and src/include/drivers/hd.h: the disk's requests and their queues. A pointer is an
-- address, with 0 for NULL: `request` gives the structure at an address, `queue` the queue at an
-- address. A queue and its requests are shared by whoever holds the pointer.
pub mod Listed
pub mod Switch
pub mod Submit
use bless_os.Prelude.{
  ℕ, zero, suc, ◌+◌, ◌-◌, ◌*◌, not, ◌==◌, ◌&&◌, ◌||◌, if◌then◌else◌, Bool, true, false, List,
  Outcome, ok, halted, ℤ, pos, negsuc, is_true, add32,
}
use bless_os.Pata.{Status, hd_rw, is_hd_drq, ata_cmd_read, ata_cmd_write}

pub data RequestType : Type 0 where
  hd_request_type_read hd_request_type_write : RequestType

-- `struct hd_request`; `bh` is the address of a buffer head.
pub record Request : Type 0 where
  pub hd : ℕ
  pub nsector : ℕ
  pub sector : ℕ
  pub head : ℕ
  pub cyl : ℕ
  pub type : RequestType
  pub errors : ℕ
  pub bh : ℕ
  pub next : ℕ

pub record RequestQueue : Type 0 where
  pub size : ℕ
  pub head : ℕ
  pub tail : ℕ

pub record Disk : Type 0 where
  pub request : ℕ → Request
  pub queue : ℕ → RequestQueue
  pub panics : ℕ

abbrev pub put_request : ℕ → Request → Disk → Disk
put_request a r d = record d { request = λ b. if a == b then r else d.request b }

abbrev pub put_queue : ℕ → RequestQueue → Disk → Disk
put_queue a q d = record d { queue = λ b. if a == b then q else d.queue b }

abbrev pub link : ℕ → ℕ → Disk → Disk
link a next d = put_request a (record (d.request a) { next = next }) d

abbrev pub panic : Disk → Disk
panic d = record d { panics = d.panics + 1 }

-- HD_REQUESTS_LIMIT
abbrev pub hd_requests_limit : ℕ
hd_requests_limit = 10

-- The loop of `get_request` over the table `requests`, by index; the result 0 stands for NULL, and
-- `suc i` for `requests + i`.
pub get_request_loop : (rounds i : ℕ) → (ℕ → Request) → ℕ
get_request_loop zero i requests = 0
get_request_loop (suc rounds) i requests =
    let rest = get_request_loop rounds (i + 1) requests in
    if (requests i).hd == 0 then i + 1 else rest

pub get_request : (ℕ → Request) → ℕ
get_request requests = get_request_loop hd_requests_limit 0 requests

-- What `kmalloc` returns is the argument `req`.
pub create_request :
    (req hd nsector sector head cylinder : ℕ) → RequestType → (bh : ℕ) → Disk → Outcome (ℕ × Disk)
create_request req hd nsector sector head cylinder type bh d =
    if req == 0
    then halted
    else ok (
      req,
      put_request req
          (record {
            hd = hd;
            nsector = nsector;
            sector = sector;
            head = head;
            cyl = cylinder;
            type = type;
            errors = 0;
            bh = bh;
            next = 0;
          })
          d,
    )

abbrev pub is_queue_empty : RequestQueue → Bool
is_queue_empty q = q.head == 0 && q.tail == 0

pub add_request_to_queue : (queue req : ℕ) → Disk → ℤ × Disk
add_request_to_queue queue req d =
    if queue == 0
    then (negsuc 0, panic d)
    else (let reset = link req 0 d in
        let q = reset.queue queue in
        if is_queue_empty q
        then (
          pos 0,
          put_queue queue (record { size = add32 q.size 1; head = req; tail = req }) reset,
        )
        else (
          pos 0,
          put_queue queue (record { size = add32 q.size 1; head = q.head; tail = req })
              (link q.tail req reset),
        ))

-- `size` is not counted down.
pub remove_request_from_queue : ℕ → Disk → ℕ × Disk
remove_request_from_queue queue d =
    if queue == 0
    then (0, d)
    else (let q = d.queue queue in
        if is_queue_empty q
        then (0, panic d)
        else (let p = (d.request q.head).next in
            (
              q.head,
              put_queue queue (record q { head = p; tail = if p == 0 then 0 else q.tail }) d,
            )))

pub switch_queues : (source target : ℕ) → Disk → ℤ × Disk
switch_queues source target d =
    if source == 0 || target == 0
    then (negsuc 0, panic d)
    else if is_queue_empty (d.queue source)
    then (negsuc 0, panic d)
    else (let (tmp, d') = remove_request_from_queue source d in
        if tmp == 0 then (negsuc 0, d') else (pos 0, (add_request_to_queue target tmp d').1))

abbrev pub command_of : RequestType → ℕ
command_of hd_request_type_read = ata_cmd_read
command_of hd_request_type_write = ata_cmd_write

-- What `submit_request` leaves: the disk, what has been sent to the controller, and whether the block
-- of the request's buffer is written to the data port. `pending` and `executing` are the addresses of
-- the two queues.
pub record Submitted : Type 0 where
  pub disk : Disk
  pub sent : List (ℕ × ℕ)
  pub writes_block : Bool

abbrev pub is_write : RequestType → Bool
is_write hd_request_type_read = false
is_write hd_request_type_write = true

pub submit_request : (pending executing : ℕ) → Status → List (ℕ × ℕ) → Disk → Outcome Submitted
submit_request pending executing status sent d =
    let (failed, d') = switch_queues pending executing d in
    if is_true failed
    then halted
    else (let req = d'.request (d'.queue executing).head in
        let (sent', readings) =
          hd_rw req.hd req.nsector req.sector req.head req.cyl (command_of req.type) status sent in
        ok (record {
          disk = d';
          sent = sent';
          writes_block = is_write req.type && not (is_hd_drq (status readings) == 0);
        }))
