-- ===== src/Sigv4/Body.antt =====
-- internal/sigv4/payload.go: the capture of a request's body, in memory or in a private file.
use kordn.Base.{
  ℕ, zero, suc, ◌+◌, ◌-◌, ◌*◌, [], ◌++◌, Bool, true, false, not, ◌&&◌, ◌||◌, Option, none, some,
  Bytes, String, length, ◌==◌, leb, ltb, if◌then◌else◌, Result, ok, err,
}
use kordn.Sigv4.Request.{SigError, new_error, malformed_request, oversized_body, body_read_failure}
pub mod Captured
pub mod Rounds

-- `BodyOptions`; a negative limit is `none`.
pub record BodyOptions : Type 0 where
  pub max_in_memory_bytes : Option ℕ
  pub max_spool_bytes : Option ℕ

pub data ReadError : Type 0 where
  no_error eof read_failed : ReadError

-- What a call of Read returns.
pub record ReadResult : Type 0 where
  pub bytes : Bytes
  pub error : ReadError

-- A reader: the answer to the call of each round, given the length of the buffer.
abbrev pub Reader : Type 0
Reader = ℕ → ℕ → ReadResult

-- http.NoBody.
abbrev pub no_body : Reader
no_body round buffer = record { bytes = []; error = eof }

-- The file system: whether a temporary file can be made, made private, found private, written (in a
-- round), rewound, opened again, and removed.
pub record Disk : Type 0 where
  pub creates : Bool
  pub chmods : Bool
  pub is_private : Bool
  pub copies : Bool
  pub writes : ℕ → Bool
  pub rewinds : Bool
  pub opens : Bool
  pub removes : Bool

-- The variables of the loop of `NewBody`: the parts of `result`, what `spool` holds once there is
-- such a file, what the hasher has been given, the length of `buffer`, and `noProgress`.
pub record Capture : Type 0 where
  pub memory : Bytes
  pub spool : Option Bytes
  pub size : ℕ
  pub hashed : Bytes
  pub buffer : ℕ
  pub no_progress : ℕ

abbrev pub first_capture : Capture
first_capture = record {
  memory = [];
  spool = none;
  size = 0;
  hashed = [];
  buffer = 32768;
  no_progress = 0;
}

-- How a round ends: the next one, the end of the body, or an error.
pub data Step : Type 0 where
  again done : Capture → Step
  failed : SigError → Capture → Step

-- os.Remove of a file that may be there; after a failure, which the source ignores, it is left.
abbrev pub removed : Disk → Option Bytes → Option Bytes
removed disk file = if disk.removes then none else file

-- `cleanup`: the file is removed and the memory is dropped.
unfoldable pub cleanup : Disk → Capture → Capture
cleanup disk c = record c { memory = []; spool = removed disk c.spool }

abbrev pub give_up : Disk → SigError → Capture → Step
give_up disk e c = failed e (cleanup disk c)

abbrev pub read_failure : SigError
read_failure = new_error body_read_failure "request body read failed"

abbrev pub too_large : SigError
too_large = new_error oversized_body "request body exceeds limit"

abbrev pub write_failure : SigError
write_failure = new_error body_read_failure "private body spool write failed"

abbrev pub permission_failure : SigError
permission_failure = new_error body_read_failure "private body spool permissions are unavailable"

-- `buffer` after its reslicing.
unfoldable pub resliced : ℕ → ℕ → ℕ
resliced remaining buffer =
    if remaining == 0 then 1 else if ltb remaining buffer then remaining else buffer

-- A new file, with what is in memory moved into it.
unfoldable pub create_spool : Disk → ℕ → Bytes → Capture → Step
create_spool disk round bytes c =
    let made = record c { spool = some [] } in
    let moved = record c { spool = some c.memory; memory = [] } in
    if not disk.creates
    then give_up disk (new_error body_read_failure "private body spool is unavailable") c
    else if not disk.chmods
    then give_up disk permission_failure made
    else if not (length c.memory == 0) && not disk.copies
    then give_up disk write_failure made
    else if not disk.is_private
    then give_up disk permission_failure moved
    else if not (disk.writes round)
    then give_up disk write_failure moved
    else again (record moved { spool = some (c.memory ++ bytes) })

-- The bytes of a round, kept in memory or written.
unfoldable pub store : Disk → ℕ → ℕ → Bytes → Capture → Step
store disk max_memory round bytes c = elim c.spool [
  | none ↦
      if leb (c.size + length bytes) max_memory
      then again (record c { memory = c.memory ++ bytes })
      else create_spool disk round bytes c
  | some file ↦
      if disk.writes round
      then again (record c { spool = some (file ++ bytes) })
      else give_up disk write_failure c
]

-- The end of a round that has read `n` bytes.
unfoldable pub after_read : Disk → ReadError → ℕ → Capture → Step
after_read disk eof n c = done c
after_read disk read_failed n c = give_up disk read_failure c
after_read disk no_error n c =
    if n == 0
    then (if leb 100 (c.no_progress + 1)
        then give_up disk read_failure (record c { no_progress = c.no_progress + 1 })
        else again (record c { no_progress = c.no_progress + 1 }))
    else again (record c { no_progress = 0 })

-- The count of the bytes that are stored, and the end of the round.
unfoldable pub after_store : Disk → ReadResult → Step → Step
after_store disk r (again kept) =
    after_read disk r.error (length r.bytes) (record kept { size = kept.size + length r.bytes })
after_store disk r (done kept) = done kept
after_store disk r (failed e kept) = failed e kept

-- The middle of a round: the bytes are hashed and stored.
unfoldable pub take_bytes : Disk → ℕ → ℕ → ℕ → ReadResult → Capture → Step
take_bytes disk max_memory max_spool round r c =
    if length r.bytes == 0
    then after_read disk r.error 0 c
    else if ltb max_spool (c.size + length r.bytes)
    then give_up disk too_large c
    else after_store disk r
        (store disk max_memory round r.bytes (record c { hashed = c.hashed ++ r.bytes }))

-- One round of the loop.
unfoldable pub read_round : Disk → ℕ → ℕ → Reader → ℕ → Capture → Step
read_round disk max_memory max_spool reader round c =
    let buffer = resliced (max_spool - c.size) c.buffer in
    let r = reader round buffer in
    if ltb max_spool c.size
    then give_up disk too_large c
    else if ltb buffer (length r.bytes)
    then give_up disk read_failure (record c { buffer = buffer })
    else take_bytes disk max_memory max_spool round r (record c { buffer = buffer })

-- The loop; `none` is a loop that goes on after `fuel` rounds.
unfoldable pub read_loop : Disk → ℕ → ℕ → Reader → (fuel : ℕ) → ℕ → Capture → Option Step
read_loop disk max_memory max_spool reader zero round c = none
read_loop disk max_memory max_spool reader (suc fuel) round c =
    elim (read_round disk max_memory max_spool reader round c) [
      | again next ↦ read_loop disk max_memory max_spool reader fuel (suc round) next
      | done end ↦ some (done end)
      | failed e end ↦ some (failed e end)
    ]

-- `Body`. A body with a file holds it in `spool`, which `Close` removes: in a closed body it is a file
-- that could not be removed.
pub record Body : Type 0 where
  pub memory : Bytes
  pub spool : Option Bytes
  pub size : ℕ
  pub hash : Bytes
  pub closed : Bool

abbrev pub bad_limits : SigError
bad_limits = new_error malformed_request "body limits are invalid"

abbrev pub default_body_memory : ℕ
default_body_memory = 8388608

abbrev pub default_body_spool : ℕ
default_body_spool = 67108864

-- `normalizedBodyOptions` on a limit.
unfoldable pub or_default : Option ℕ → ℕ → ℕ
or_default none fallback = fallback
or_default (some n) fallback = if leb n 0 then fallback else n

unfoldable pub is_negative : Option ℕ → Bool
is_negative none = true
is_negative (some n) = false

-- Rounds enough for every reader: a round takes a byte, or is one of 99 without progress.
abbrev pub enough_rounds : ℕ → ℕ
enough_rounds max_spool = (max_spool + 1) * 100 + 100

-- What `NewBody` returns, and the file that is then on the disk.
pub record Outcome : Type 0 where
  pub result : Result SigError Body
  pub file : Option Bytes

module _ (sha256 : Bytes → Bytes) where
  unfoldable pub body_of : Capture → Body
  body_of c = record {
    memory = c.memory;
    spool = c.spool;
    size = c.size;
    hash = sha256 c.hashed;
    closed = false;
  }

  -- The end of `NewBody`; a file is rewound.
  unfoldable pub finish_body : Disk → Step → Outcome
  finish_body disk (again c) = record { result = err read_failure; file = c.spool }
  finish_body disk (failed e c) = record { result = err e; file = c.spool }
  finish_body disk (done c) = elim c.spool [
    | none ↦ record { result = ok (body_of c); file = none }
    | some file ↦
        if disk.rewinds then record { result = ok (body_of c); file = some file } else record {
          result = err (new_error body_read_failure "private body spool is unavailable");
          file = (cleanup disk c).spool;
        }
  ]

  -- `NewBody` with limits that are chosen.
  unfoldable pub read_body : Disk → ℕ → ℕ → Reader → Option Outcome
  read_body disk max_memory max_spool reader =
      if ltb max_spool max_memory
      then some (record { result = err bad_limits; file = none })
      else elim (read_loop disk max_memory max_spool reader (enough_rounds max_spool) 0
          first_capture) [ none ↦ none | some end ↦ some (finish_body disk end) ]

  -- `NewBody`; `none` is a loop that has not ended.
  unfoldable pub new_body : Disk → BodyOptions → Reader → Option Outcome
  new_body disk options reader =
      if is_negative options.max_in_memory_bytes || is_negative options.max_spool_bytes
      then some (record { result = err bad_limits; file = none })
      else read_body disk (or_default options.max_in_memory_bytes default_body_memory)
          (or_default options.max_spool_bytes default_body_spool) reader
