-- ===== src/Io/Ring/Failing.antt =====
-- A worker of src/io/uring.rs and completions that may report errors and short transfers.
use schelk.Base.{
  ℕ, ◌≤◌, ◌≢◌, refl, inl, inr, Option, none, some, Bool-cases, ℤ, is_negative, int_beq, as_i32, ◌/◌,
  ◌%◌, ◌^◌,
}
use schelk.Error.{Error, io_failed, short_read, short_write}
use schelk.Io.Ring.UserData.{Phase, free, reading, writing, decode_user_data, number_phase}
use schelk.Io.Ring.{Bytes, Slot, Cqe, Kernel, Ring, Config, keep_first}
use schelk.Io.Ring.Handling.{handle_phase, handle, serve, fail_slot}
use schelk.Io.Ring.Completion.{InFlight}
use schelk.Io.Ring.Draining.{IsHandled}
use schelk.Io.Ring.Spending.{serve-slots}
use schelk.Io.Ring.Clean.{IsWilling, Sure, Calm, queue_write-Calm}

-- The error of a read or a write that failed or ended short, with which a worker ends once nothing is
-- in flight. An early return of `run_ring` has another error.
abbrev pub IsTransferError : Error → Type 0
IsTransferError (io_failed offset) = Unit {0}
IsTransferError (short_read offset result) = Unit {0}
IsTransferError (short_write offset result) = Unit {0}
IsTransferError _ = ⊥

-- The first error of a worker, if there is one, is such an error.
abbrev pub IsMild : Option Error → Type 0
IsMild none = Unit {0}
IsMild (some e) = IsTransferError e

keep_first-IsMild :
    (o : Option Error) (e : Error) → IsMild o → IsTransferError e → IsMild (keep_first o e)
keep_first-IsMild none e m h = h
keep_first-IsMild (some d) e m h = m

module _ (k : Kernel) (will : IsWilling k) (c : Config) (deep : 32 ≤ c.sq_depth) where
  fail_slot-Calm :
      (id : ℕ) (s : Slot) (e : Error) (r : Ring)
      → IsTransferError e
      → Calm IsMild r
      → Calm IsMild (fail_slot k c id s e r)
  fail_slot-Calm id s e r h v = record {
    fine = keep_first-IsMild r.first_error e v.fine h;
    queue = v.queue;
    few = v.few;
  }

  handle_phase-Calm :
      (p : Phase) (id : ℕ) (s : Slot) (result : ℤ) (r : Ring) (copied : ℕ)
      → Calm IsMild r
      → p ≢ free
      → Sure (Calm IsMild) (handle_phase k c p id s result r copied).0
  unfolding handle_phase
  handle_phase-Calm free id s result r copied v ne = absurd (ne refl)
  handle_phase-Calm reading id s result r copied v ne =
      elim (Bool-cases (int_beq result (as_i32 s.len))) [
        | inl full ↦ rw (handle_phase, full) (queue_write-Calm k will c deep IsMild id s r v)
        | inr short ↦
            rw (handle_phase, short) (fail_slot-Calm id s (short_read s.offset result) r tt v)
      ]
  handle_phase-Calm writing id s result r copied v ne =
      elim (Bool-cases (int_beq result (as_i32 s.len))) [
        | inl full ↦
            rw (handle_phase, full) (record { fine = v.fine; queue = v.queue; few = v.few })
        | inr short ↦
            rw (handle_phase, short) (fail_slot-Calm id s (short_write s.offset result) r tt v)
      ]

  handle-Calm :
      (cqe : Cqe) (r : Ring) (copied : ℕ)
      → Calm IsMild r
      → InFlight cqe r
      → Sure (Calm IsMild) (handle k c cqe r copied).0
  unfolding handle decode_user_data
  handle-Calm cqe r copied v f = elim (Bool-cases (is_negative cqe.result)) [
    | inl failed ↦
        rw (handle, f.found, failed)
          (fail_slot-Calm (cqe.user_data % 2 ^ 32) f.slot (io_failed f.slot.offset) r tt v)
    | inr ended ↦
        rw (handle, f.found, ended)
          (handle_phase-Calm (number_phase (cqe.user_data / 2 ^ 32)) (cqe.user_data % 2 ^ 32) f.slot
            cqe.result r copied v f.not_free)
  ]

module _ (k : Kernel) (will : IsWilling k) (c : Config) (src : Bytes) (deep : 32 ≤ c.sq_depth) where
  served-InFlight :
      (cqe : Cqe) (r : Ring) (dst : Bytes)
      → InFlight cqe r
      → InFlight cqe (serve k c src cqe r dst).0
  served-InFlight cqe r dst f = record {
    slot = f.slot;
    found = rw (serve-slots k c src cqe r dst).0 f.found;
    in_phase = f.in_phase;
    not_free = f.not_free;
  }

  pub InFlight-IsHandled : IsHandled IsMild InFlight k c src
  InFlight-IsHandled = record {
    answers = λ cqe r f. f;
    handled = λ cqe r dst copied v f fits.
        handle-Calm k will c deep cqe (serve k c src cqe r dst).0 copied v
          (served-InFlight cqe r dst f);
  }
