-- ===== src/Tests/Durable.antt =====
-- A power loss on a machine that keeps what is written in memory until it is synchronised.
use schelk.Base.{ℕ, ◌≡◌, refl, ◌⊎◌, inl, inr, true, List, Option, none, some, ok}
use schelk.State.{load, save}
use schelk.Session.Stored.{parsed}
use schelk.Session.PowerLoss.{PowerLoss, run_calls, save_calls, Midway}
use schelk.Session.Durable.{load-save_interrupted, load-save_durable}
use schelk.Tests.Bench.{mounted_state}
use schelk.Tests.Codec.{to_json, json_back}
use schelk.Tests.Filing.{Files, filing, state_file, fresh, saves}

-- The disk has the old name, or the new one with the contents that were synchronised, or any if they
-- were not.
abbrev Left : Files → Option (List ℕ) → Type 0
Left w c = (c ≡ w.named) ⊎ (w.file_synced ≡ true → c ≡ w.file)

abbrev power_loss : PowerLoss filing state_file
power_loss = record {
  loss = λ w after. Left w after.file;
  left = Left;
  target = λ w c. w.file_synced ≡ true → c ≡ w.file;
  copy = λ w c. w.temp_synced ≡ true → c ≡ w.temp;
  loss_left = λ w after h. h;
  mkdir_left = λ w c l. l;
  create_left = λ w c l. l;
  write_left = λ bytes w c l. l;
  sync_left = λ w c l. l;
  synced = λ w c e l. l refl;
  rename_left = λ w c l. elim l [ inl e ↦ inl (inl e) | inr h ↦ inr h ];
  rename_target = λ w c e l. l;
  open_left = λ w c l. l;
  open_target = λ w c l. l;
  dir_left = λ w c l. elim l [ inl e ↦ inr (λ _. e) | inr h ↦ inr h ];
  dir_synced = λ w c e l. elim l [ inl same ↦ λ _. same | inr h ↦ h ];
}

-- Power is lost after the rename, before the directory is synchronised, and undoes it.
abbrev renamed : Files
renamed = record fresh { file = some (to_json mounted_state) }

none_loaded : (load filing fresh).0 ≡ ok none
unfolding load
none_loaded = refl

-- What is left once the directory is synchronised.
abbrev settled : Files
settled = record fresh { file = some (to_json mounted_state); named = some (to_json mounted_state) }

kept_new : Left (save filing mounted_state fresh).1 settled.file
unfolding save
kept_new = inl refl

loads_after : (load filing settled).0 ≡ ok (some mounted_state)
unfolding load
loads_after = rw (json_back mounted_state) refl

midway : Midway filing mounted_state fresh renamed
midway = inr (inr (refl, inr (inr (refl, inr (inr (refl, inr (inr (refl, inr (inl refl)))))))))

load-save_interrupted_example :
    (run_calls (save_calls filing mounted_state) fresh ≡ save filing mounted_state fresh)
    × ((none ≡ some mounted_state)
        ⊎ ((c : Option (List ℕ)) × Left fresh c × (parsed filing state_file c ≡ none)))
load-save_interrupted_example =
    load-save_interrupted filing state_file power_loss mounted_state none fresh renamed fresh midway
      (inl refl) none_loaded

load-save_durable_example : some mounted_state ≡ some mounted_state
load-save_durable_example =
    load-save_durable filing state_file power_loss mounted_state (some mounted_state) fresh settled
      saves kept_new loads_after
