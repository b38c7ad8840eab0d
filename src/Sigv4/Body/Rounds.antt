-- ===== src/Sigv4/Body/Rounds.antt =====
-- internal/sigv4/payload.go: the loop of NewBody ends, and what NewBody returns.
use kordn.Base.{
  ℕ, zero, suc, ◌≡◌, ◌≤◌, ◌<◌, refl, ap, true, false, Bool-cases, inl, inr, Option, none, some,
  Option-cases, Bytes, length, ltb, arith, ok, err, ◌||◌,
}
use kordn.Sigv4.Body.{
  Reader, Disk, Capture, Step, again, done, failed, first_capture, read_round, read_loop,
  enough_rounds, Body, BodyOptions, body_of, finish_body, read_body, new_body, Outcome, or_default,
  is_negative, default_body_memory, default_body_spool,
}
use kordn.Sigv4.Body.Captured.{
  is_rid, IsKept, IsClean, Keeps, cleanup-IsClean, rounds_left, read_round-Keeps, held, Placed,
}

-- The end of a loop.
abbrev Ends : Disk → ℕ → ℕ → Option Step → Type 0
Ends disk max_memory max_spool none = false ≡ true
Ends disk max_memory max_spool (some (again c)) = false ≡ true
Ends disk max_memory max_spool (some (done c)) = IsKept max_memory max_spool c
Ends disk max_memory max_spool (some (failed e c)) = IsClean disk c

-- The end of a loop whose first round is given, when the rounds behind it end.
step-Ends :
    (disk : Disk) (max_memory max_spool : ℕ) (c : Capture) (step : Step)
    (rest : Capture → Option Step)
    → Keeps disk max_memory max_spool c step
    → ((next : Capture)
        → IsKept max_memory max_spool next
        → rounds_left max_spool next < rounds_left max_spool c
        → Ends disk max_memory max_spool (rest next))
    → Ends disk max_memory max_spool (elim step [
      | again next ↦ rest next
      | done end ↦ some (done end)
      | failed e end ↦ some (failed e end)
    ])
step-Ends disk max_memory max_spool c (again next) rest kept ends = ends next kept.0 kept.1
step-Ends disk max_memory max_spool c (done end) rest kept ends = kept
step-Ends disk max_memory max_spool c (failed e end) rest kept ends = kept

read_loop-Ends :
    (disk : Disk) (max_memory max_spool : ℕ) (reader : Reader) (fuel round : ℕ) (c : Capture)
    → IsKept max_memory max_spool c
    → rounds_left max_spool c ≤ fuel
    → Ends disk max_memory max_spool (read_loop disk max_memory max_spool reader fuel round c)
unfolding read_loop
read_loop-Ends disk max_memory max_spool reader zero round c h enough =
    absurd (omega (arith, h.progressing))
read_loop-Ends disk max_memory max_spool reader (suc fuel) round c h enough =
    step-Ends disk max_memory max_spool c (read_round disk max_memory max_spool reader round c)
      (read_loop disk max_memory max_spool reader fuel (suc round))
      (read_round-Keeps disk max_memory max_spool round reader c h)
      (λ next kept fewer.
        read_loop-Ends disk max_memory max_spool reader fuel (suc round) next kept
          (omega (arith, fewer)))

-- A body that was captured: all of it in one place, in memory exactly while it fits there, with its
-- size and hash; and the file on the disk is the body's own.
pub record IsWhole (sha256 : Bytes → Bytes) (max_memory max_spool : ℕ) (b : Body)
    (file : Option Bytes) : Type 0 where
  pub measured : b.size ≡ length (held b.spool b.memory)
  pub hashed : b.hash ≡ sha256 (held b.spool b.memory)
  pub bounded : b.size ≤ max_spool
  pub placed : Placed max_memory b.spool b.memory b.size
  pub owned : file ≡ b.spool
  pub usable : b.closed ≡ false

-- After a success the body is whole; after a failure no file is left, if it could be removed.
abbrev pub Settles : (Bytes → Bytes) → Disk → ℕ → ℕ → Option Outcome → Type 0
Settles sha256 disk max_memory max_spool none = false ≡ true
Settles sha256 disk max_memory max_spool (some outcome) = elim outcome.result as (λ _. Type 0) [
  | ok b ↦ IsWhole sha256 max_memory max_spool b outcome.file
  | err e ↦ is_rid disk outcome.file ≡ true
]

done-Settles :
    (sha256 : Bytes → Bytes) (disk : Disk) (max_memory max_spool : ℕ) (c : Capture)
    → IsKept max_memory max_spool c
    → Settles sha256 disk max_memory max_spool (some (finish_body sha256 disk (done c)))
unfolding finish_body body_of
done-Settles sha256 disk max_memory max_spool c h = elim (Option-cases c.spool) [
  | inl e ↦ ground (arith, e, ap sha256 h.complete)
  | inr (file, e) ↦ ground (arith, e, ap sha256 h.complete, (cleanup-IsClean disk c).no_file)
]

finish_body-Settles :
    (sha256 : Bytes → Bytes) (disk : Disk) (max_memory max_spool : ℕ) (end : Option Step)
    → Ends disk max_memory max_spool end
    → Settles sha256 disk max_memory max_spool
        (elim end [ none ↦ none | some end ↦ some (finish_body sha256 disk end) ])
unfolding finish_body
finish_body-Settles sha256 disk max_memory max_spool none h = absurd (ground (arith, h))
finish_body-Settles sha256 disk max_memory max_spool (some (again c)) h = absurd (ground (arith, h))
finish_body-Settles sha256 disk max_memory max_spool (some (done c)) h =
    done-Settles sha256 disk max_memory max_spool c h
finish_body-Settles sha256 disk max_memory max_spool (some (failed e c)) h = h.no_file

first_capture-IsKept : (max_memory max_spool : ℕ) → IsKept max_memory max_spool first_capture
first_capture-IsKept max_memory max_spool = record {
  complete = refl;
  measured = refl;
  bounded = omega arith;
  placed = omega arith;
  progressing = omega arith;
}

read_body-Settles :
    (sha256 : Bytes → Bytes) (disk : Disk) (max_memory max_spool : ℕ) (reader : Reader)
    → Settles sha256 disk max_memory max_spool (read_body sha256 disk max_memory max_spool reader)
unfolding read_body
read_body-Settles sha256 disk max_memory max_spool reader =
    elim (Bool-cases (ltb max_spool max_memory)) [
      | inl e ↦ rw (e, read_body) refl
      | inr e ↦
          rw (e, read_body)
            (finish_body-Settles sha256 disk max_memory max_spool
              (read_loop disk max_memory max_spool reader (enough_rounds max_spool) 0 first_capture)
              (read_loop-Ends disk max_memory max_spool reader (enough_rounds max_spool) 0
                first_capture (first_capture-IsKept max_memory max_spool) (omega arith)))
    ]

-- NewBody returns on every reader, its loop having ended after the rounds that it is given; after an
-- error no private file is left unless os.Remove fails, and a body holds what was read in one place,
-- has its length and its hash, is not larger than the limit, and is in memory exactly while it fits
-- there.
pub new_body-Settles :
    (sha256 : Bytes → Bytes) (disk : Disk) (options : BodyOptions) (reader : Reader)
    → Settles sha256 disk
        (or_default options.max_in_memory_bytes default_body_memory)
        (or_default options.max_spool_bytes default_body_spool)
        (new_body sha256 disk options reader)
unfolding new_body
new_body-Settles sha256 disk options reader =
    elim (Bool-cases
      (is_negative options.max_in_memory_bytes || is_negative options.max_spool_bytes)) [
        | inl e ↦ rw (e, new_body) refl
        | inr e ↦
            rw (e, new_body)
              (read_body-Settles sha256 disk
                (or_default options.max_in_memory_bytes default_body_memory)
                (or_default options.max_spool_bytes default_body_spool) reader)
      ]
