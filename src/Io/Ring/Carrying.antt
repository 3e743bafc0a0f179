-- ===== src/Io/Ring/Carrying.antt =====
-- A worker of src/io/uring.rs and completions that move all the bytes of their operations.
use schelk.Base.{
  ℕ, ◌≤◌, ◌<◌, ◌≡◌, ◌≢◌, refl, true, false, ◌==◌, arith, none, ℤ, is_negative, int_beq, as_i32,
  as_i32_small, ◌/◌, ◌%◌, ◌^◌, ==_iff,
}
use schelk.Io.Ring.UserData.{Phase, free, reading, writing, decode_user_data, number_phase}
use schelk.Io.Ring.{Bytes, Slot, Cqe, Kernel, Ring, Config}
use schelk.Io.Ring.Handling.{handle_phase, handle, serve}
use schelk.Io.Ring.Slots.{Small}
use schelk.Io.Ring.Draining.{IsHandled}
use schelk.Io.Ring.Spending.{serve-slots}
use schelk.Io.Ring.Clean.{IsWilling, Completes, Sure, Calm, queue_write-Calm}

module _ (k : Kernel) (will : IsWilling k) (c : Config) (deep : 32 ≤ c.sq_depth) where
  full_phase-Calm :
      (p : Phase) (id : ℕ) (s : Slot) (result : ℤ) (r : Ring) (copied : ℕ)
      → Calm (λ o. o ≡ none) r
      → p ≢ free
      → int_beq result (as_i32 s.len) ≡ true
      → Sure (Calm (λ o. o ≡ none)) (handle_phase k c p id s result r copied).0
  unfolding handle_phase
  full_phase-Calm free id s result r copied v ne full = absurd (ne refl)
  full_phase-Calm reading id s result r copied v ne full =
      rw (handle_phase, full) (queue_write-Calm k will c deep (λ o. o ≡ none) id s r v)
  full_phase-Calm writing id s result r copied v ne full =
      rw (handle_phase, full) (record { fine = v.fine; queue = v.queue; few = v.few })

  handle-Calm :
      (cqe : Cqe) (r : Ring) (copied : ℕ)
      → c.slot_size < 2 ^ 31
      → Calm (λ o. o ≡ none) r
      → (done : Completes cqe r) → Small c.slot_size done.in_flight.slot
      → Sure (Calm (λ o. o ≡ none)) (handle k c cqe r copied).0
  unfolding handle decode_user_data
  handle-Calm cqe r copied small v done fits =
      let s = done.in_flight.slot in
      let result = done.full in
      let nonneg : is_negative cqe.result ≡ false = rw result refl in
      let same : (s.len == s.len) ≡ true = (==_iff s.len s.len).1 refl in
      let full : int_beq cqe.result (as_i32 s.len) ≡ true =
        rw (result, as_i32_small s.len (omega (arith, fits, small))) same in
      rw (handle, done.in_flight.found, nonneg)
        (full_phase-Calm (number_phase (cqe.user_data / 2 ^ 32)) (cqe.user_data % 2 ^ 32) s
          cqe.result r copied v done.in_flight.not_free full)

module _ (k : Kernel) (will : IsWilling k) (c : Config) (src : Bytes)
    (small_slots : c.slot_size < 2 ^ 31) (deep : 32 ≤ c.sq_depth) where
  served-Completes :
      (cqe : Cqe) (r : Ring) (dst : Bytes)
      → Completes cqe r
      → Completes cqe (serve k c src cqe r dst).0
  served-Completes cqe r dst f = record {
    in_flight = record {
      slot = f.in_flight.slot;
      found = rw (serve-slots k c src cqe r dst).0 f.in_flight.found;
      in_phase = f.in_flight.in_phase;
      not_free = f.in_flight.not_free;
    };
    full = f.full;
  }

  pub Completes-IsHandled : IsHandled (λ o. o ≡ none) Completes k c src
  unfolding served-Completes
  Completes-IsHandled = record {
    answers = λ cqe r f. f.in_flight;
    handled = λ cqe r dst copied v f fits.
        handle-Calm k will c deep cqe (serve k c src cqe r dst).0 copied small_slots v
          (served-Completes cqe r dst f) fits;
  }
