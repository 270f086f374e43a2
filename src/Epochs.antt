-- ===== src/Epochs.antt =====
-- The block arithmetic at the end of src/subnet/substrate/utils.py, get_next_epoch_start_block among
-- it, which Consensus.Run has beside its caller. Python raises on an interval of 0.
mod Tests
use native.Mathlib.Nat.{mod-lt, mod-add-div, add-mul-mod_self_left, mul-mod_right, mod_self}
use subnet_llm_template.Prelude.{
  ℕ, zero, suc, ◌+◌, ◌-◌, ◌*◌, ◌/◌, ◌%◌, ◌≤◌, ◌<◌, ◌≡◌, refl, ap, ◌∙◌, Bool, true, false, ◌&&◌,
  ◌||◌, not, arith, ◌==◌, Bool-cases, inl, inr,
}
use subnet_llm_template.Consensus.Run.{get_next_epoch_start_block}

unfoldable get_eligible_consensus_block : ℕ → ℕ → ℕ → ℕ
get_eligible_consensus_block epochs_interval initialized epochs =
    initialized - initialized % epochs_interval + epochs_interval * epochs

-- At block 0 the first test holds, so that `block - 1` is a number in the second.
unfoldable is_in_consensus_steps : ℕ → ℕ → Bool
is_in_consensus_steps block epochs_interval =
    block % epochs_interval == 0 || (block - 1) % epochs_interval == 0

unfoldable pub can_submit_consensus : ℕ → ℕ → Bool
unfolding is_in_consensus_steps
can_submit_consensus block epochs_interval =
    let in_consensus_steps = is_in_consensus_steps block epochs_interval in
    let can_remove_or_update_model_peer = true in
    not in_consensus_steps && not can_remove_or_update_model_peer

unfoldable pub get_next_eligible_submit_consensus_block : ℕ → ℕ → ℕ
get_next_eligible_submit_consensus_block epochs_interval last_block =
    epochs_interval + (last_block - last_block % epochs_interval)

whole_epochs : (n block : ℕ) → block - block % n ≡ n * (block / n)
whole_epochs n block = omega (arith, mod-add-div block n)

-- The next epoch starts at the first multiple of the length of an epoch after the block, and so does
-- the block from which a node may submit again, where the length is not 0.
pub next_epoch_start :
    (epochs_length block : ℕ)
    → 0 < epochs_length
    → let next = get_next_epoch_start_block epochs_length block in
      (block < next)
      × (next ≤ block + epochs_length)
      × (next % epochs_length ≡ 0)
      × (get_next_eligible_submit_consensus_block epochs_length block ≡ next)
unfolding get_next_epoch_start_block get_next_eligible_submit_consensus_block
next_epoch_start n block some_blocks =
    let below = mod-lt block some_blocks in
    let whole = whole_epochs n block in
    (
      omega (arith, below, mod-add-div block n),
      omega (arith, below, mod-add-div block n),
      rw whole (add-mul-mod_self_left n n (block / n)) ∙ mod_self n,
      refl,
    )

-- The block at which a subnet becomes eligible is a multiple of the interval, past the start by the
-- epochs given, less what had passed of the epoch in which it was initialized.
eligible_block_aligned :
    (epochs_interval initialized epochs : ℕ)
    → let eligible = get_eligible_consensus_block epochs_interval initialized epochs in
      (eligible % epochs_interval ≡ 0)
      × (eligible + initialized % epochs_interval ≡ initialized + epochs_interval * epochs)
unfolding get_eligible_consensus_block
eligible_block_aligned n initialized epochs = (
  rw (whole_epochs n initialized)
      (add-mul-mod_self_left (n * (initialized / n)) n epochs ∙ mul-mod_right n (initialized / n)),
  omega (arith, mod-add-div initialized n),
)
