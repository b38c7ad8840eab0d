-- ===== src/Sigv4/Body/Captured.antt =====
-- internal/sigv4/payload.go: what the loop of NewBody keeps, and that it ends.
use kordn.Base.{
  Bool, not, ℕ, ◌+◌, ◌-◌, ◌*◌, ◌≡◌, ◌≤◌, ◌<◌, refl, ap, [], ◌++◌, true, false, Bool-cases, inl, inr,
  Option, none, some, Option-cases, Bytes, length, length-append, ◌==◌, ltb, arith, ltb→le,
}
use kordn.Sigv4.Body.{
  ReadError, ReadResult, no_error, eof, read_failed, Reader, Disk, Capture, Step, again, done,
  failed, cleanup, create_spool, store, after_read, after_store, take_bytes, read_round, resliced,
  removed,
}

-- The bytes that are held, in memory or in the file.
abbrev pub held : Option Bytes → Bytes → Bytes
held none memory = memory
held (some file) memory = file

-- A body is in memory exactly while it fits there.
abbrev pub Placed : ℕ → Option Bytes → Bytes → ℕ → Type 0
Placed max_memory none memory size = size ≤ max_memory
Placed max_memory (some file) memory size = (memory ≡ []) × (max_memory < size)

-- What was read is what is held, in one place and within the limits.
pub record IsKept (max_memory max_spool : ℕ) (c : Capture) : Type 0 where
  pub complete : held c.spool c.memory ≡ c.hashed
  pub measured : c.size ≡ length c.hashed
  pub bounded : c.size ≤ max_spool
  pub placed : Placed max_memory c.spool c.memory c.size
  pub progressing : c.no_progress < 100

-- No file is there, if it could be removed.
abbrev pub is_rid : Disk → Option Bytes → Bool
is_rid disk none = true
is_rid disk (some file) = not disk.removes

-- No memory is held, and no file unless it could not be removed.
pub record IsClean (disk : Disk) (c : Capture) : Type 0 where
  pub no_file : is_rid disk c.spool ≡ true
  pub no_memory : c.memory ≡ []

-- An upper bound of the rounds that are left.
abbrev pub rounds_left : ℕ → Capture → ℕ
rounds_left max_spool c = (max_spool + 1 - c.size) * 100 + (100 - c.no_progress)

-- A round keeps the body and uses a round up, ends with the body kept, or leaves nothing behind.
abbrev pub Keeps : Disk → ℕ → ℕ → Capture → Step → Type 0
Keeps disk max_memory max_spool c (again next) =
    IsKept max_memory max_spool next × (rounds_left max_spool next < rounds_left max_spool c)
Keeps disk max_memory max_spool c (done end) = IsKept max_memory max_spool end
Keeps disk max_memory max_spool c (failed e end) = IsClean disk end

pub removed-is_rid : (disk : Disk) (file : Option Bytes) → is_rid disk (removed disk file) ≡ true
removed-is_rid disk none = ground arith
removed-is_rid disk (some file) = ground arith

pub cleanup-IsClean : (disk : Disk) (c : Capture) → IsClean disk (cleanup disk c)
unfolding cleanup
cleanup-IsClean disk c = record { no_file = removed-is_rid disk c.spool; no_memory = refl }

-- What `store` leaves, before the size is updated.
abbrev Stores : Disk → ℕ → ℕ → Bytes → Capture → Step → Type 0
Stores disk max_memory max_spool bytes c (again kept) =
    IsKept max_memory max_spool (record kept { size = c.size + length bytes })
    × (kept.size ≡ c.size)
    × (kept.no_progress ≡ c.no_progress)
Stores disk max_memory max_spool bytes c (done end) = false ≡ true
Stores disk max_memory max_spool bytes c (failed e end) = IsClean disk end

create_spool-Stores :
    (disk : Disk) (max_memory max_spool round : ℕ) (bytes : Bytes) (c : Capture)
    → IsKept max_memory max_spool c
    → c.spool ≡ none
    → max_memory < c.size + length bytes
    → c.size + length bytes ≤ max_spool
    → Stores disk max_memory max_spool bytes c
        (create_spool disk round bytes (record c { hashed = c.hashed ++ bytes }))
unfolding create_spool cleanup
create_spool-Stores disk max_memory max_spool round bytes c h e over within =
    ground (arith, length-append c.hashed bytes)

store-Stores :
    (disk : Disk) (max_memory max_spool round : ℕ) (bytes : Bytes) (c : Capture)
    → IsKept max_memory max_spool c
    → c.size + length bytes ≤ max_spool
    → (length bytes == 0) ≡ false
    → Stores disk max_memory max_spool bytes c
        (store disk max_memory round bytes (record c { hashed = c.hashed ++ bytes }))
unfolding store cleanup
store-Stores disk max_memory max_spool round bytes c h within some_bytes =
    elim (Option-cases c.spool) [
      | inl e ↦ ground (
        arith,
        length-append c.hashed bytes,
        create_spool-Stores disk max_memory max_spool round bytes c h e,
      )
      | inr (file, e) ↦ ground (arith, length-append c.hashed bytes, e)
    ]

after_read-Keeps :
    (disk : Disk) (max_memory max_spool : ℕ) (c : Capture) (error : ReadError) (n : ℕ)
    (next : Capture)
    → IsKept max_memory max_spool next
    → next.size ≡ c.size + n
    → next.no_progress ≡ c.no_progress
    → Keeps disk max_memory max_spool c (after_read disk error n next)
unfolding after_read
after_read-Keeps disk max_memory max_spool c eof n next h sized idle = h
after_read-Keeps disk max_memory max_spool c read_failed n next h sized idle =
    cleanup-IsClean disk next
after_read-Keeps disk max_memory max_spool c no_error n next h sized idle =
    ground (arith, cleanup-IsClean disk (record next { no_progress = next.no_progress + 1 }))

after_store-Keeps :
    (disk : Disk) (max_memory max_spool : ℕ) (r : ReadResult) (c : Capture) (stored : Step)
    → Stores disk max_memory max_spool r.bytes c stored
    → Keeps disk max_memory max_spool c (after_store disk r stored)
unfolding after_store
after_store-Keeps disk max_memory max_spool r c (again kept) (h, same_size, same_progress) =
    after_read-Keeps disk max_memory max_spool c r.error (length r.bytes)
      (record kept { size = kept.size + length r.bytes }) (rw same_size h)
      (ap (λ n. n + length r.bytes) same_size) same_progress
after_store-Keeps disk max_memory max_spool r c (done kept) h = absurd (ground (arith, h))
after_store-Keeps disk max_memory max_spool r c (failed e kept) h = h

take_bytes-Keeps :
    (disk : Disk) (max_memory max_spool round : ℕ) (r : ReadResult) (c : Capture)
    → IsKept max_memory max_spool c
    → Keeps disk max_memory max_spool c (take_bytes disk max_memory max_spool round r c)
unfolding take_bytes
take_bytes-Keeps disk max_memory max_spool round r c h = elim (Bool-cases (length r.bytes == 0)) [
  | inl e ↦
      rw (e, take_bytes)
        (after_read-Keeps disk max_memory max_spool c r.error 0 c h (omega arith) refl)
  | inr e ↦ elim (Bool-cases (ltb max_spool (c.size + length r.bytes))) [
    | inl large ↦ rw (e, large, take_bytes) (cleanup-IsClean disk c)
    | inr within ↦
        rw (e, within, take_bytes)
          (after_store-Keeps disk max_memory max_spool r c
            (store disk max_memory round r.bytes (record c { hashed = c.hashed ++ r.bytes }))
            (store-Stores disk max_memory max_spool round r.bytes c h
              (ltb→le max_spool (c.size + length r.bytes) within) e))
  ]
]

pub read_round-Keeps :
    (disk : Disk) (max_memory max_spool round : ℕ) (reader : Reader) (c : Capture)
    → IsKept max_memory max_spool c
    → Keeps disk max_memory max_spool c (read_round disk max_memory max_spool reader round c)
unfolding read_round cleanup
read_round-Keeps disk max_memory max_spool round reader c h =
    let buffer = resliced (max_spool - c.size) c.buffer in
    let r = reader round buffer in
    let next = record c { buffer = buffer } in
    let kept = take_bytes-Keeps disk max_memory max_spool round r next (record {
      complete = h.complete;
      measured = h.measured;
      bounded = h.bounded;
      placed = h.placed;
      progressing = h.progressing;
    }) in
    ground (arith, kept)
