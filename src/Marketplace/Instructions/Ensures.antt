-- ===== src/Marketplace/Instructions/Ensures.antt =====
-- What an instruction that succeeds ensures.
use mu.Base.{◌≡◌, refl, ℕ, Bool, true, false, Option, none, some}
use mu.Base.HashMap.{HashMap}
use mu.Marketplace.Usage.{ServiceUsage}
use mu.Marketplace.Program.{update_usage, pay}
use mu.Marketplace.Accounts.{
  Result, ok, err, Error, require, load, vacant, Ledger, Pubkey, UsageUpdate, Runtime,
}
use mu.Marketplace.Instructions.{committed}

abbrev pub Ensures {ℓ κ} : {A : Type ℓ} → (A → Type κ) → Result A → Type κ
Ensures P (ok a) = P a
Ensures P (err e) = Unit

module _ {ℓ κ} {A : Type ℓ} (P : A → Type κ) where
  pub require-Ensures :
      (b : Bool) (e : Error) (r : Result A) → (b ≡ true → Ensures P r) → Ensures P (require b e r)
  unfolding require
  require-Ensures true e r h = h refl
  require-Ensures false e r h = tt

  pub load-Ensures {μ} :
      {B : Type μ}
      → (o : Option B) (e : Error) (f : B → Result A) → ((b : B) → o ≡ some b → Ensures P (f b))
      → Ensures P (load o e f)
  unfolding load
  load-Ensures none e f h = tt
  load-Ensures (some b) e f h = h b refl

  pub vacant-Ensures {μ} :
      {B : Type μ}
      → (o : Option B) (r : Result A) → (o ≡ none → Ensures P r)
      → Ensures P (vacant o r)
  unfolding vacant
  vacant-Ensures none r h = h refl
  vacant-Ensures (some b) r h = tt

  pub committed-keeps : (l : A) (r : Result A) → P l → Ensures P r → P (committed l r)
  unfolding committed
  committed-keeps l (ok l') before after = after
  committed-keeps l (err e) before after = before

pub weaken-Ensures {ℓ κ μ} :
    {A : Type ℓ} (P : A → Type κ) (Q : A → Type μ) (r : Result A)
    → Ensures P r
    → ((a : A) → P a → Q a)
    → Ensures Q r
weaken-Ensures P Q (ok a) h f = f a h
weaken-Ensures P Q (err e) h f = tt

-- `update_usage` changes no account but the usage updates and the tokens, which it moves by `pay`.
abbrev pub with_update : {T : Type 0} → Ledger T → T → HashMap Pubkey UsageUpdate → Ledger T
with_update l t updates = record l { tokens = t; usage_updates = updates }

pub update_usage-Ensures {κ} :
    {T : Type 0} (runtime : Runtime T) (overflow_checks : Bool)
    → (signer commission region account stack : Pubkey) (seed : ℕ) (usage : ServiceUsage)
    → (l : Ledger T) (P : Ledger T → Type κ)
    → ((t : T) (updates : HashMap Pubkey UsageUpdate) → P (with_update l t updates))
    → Ensures P
        (update_usage runtime overflow_checks signer commission region account stack seed usage l)
unfolding update_usage pay
update_usage-Ensures runtime c signer commission region account stack seed usage l P h =
    load-Ensures _ _ _ _ λ _ _. require-Ensures _ _ _ _ λ _. load-Ensures _ _ _ _ λ _ _.
      require-Ensures _ _ _ _ λ _. load-Ensures _ _ _ _ λ _ _. load-Ensures _ _ _ _ λ _ _.
        require-Ensures _ _ _ _ λ _. vacant-Ensures _ _ _ λ _. load-Ensures _ _ _ _ λ _ _.
          load-Ensures _ _ _ _ λ _ _. load-Ensures _ _ _ _ λ _ _. load-Ensures _ _ _ _ λ t _. h t _
