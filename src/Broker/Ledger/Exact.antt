-- ===== src/Broker/Ledger/Exact.antt =====
-- Exact addition and subtraction: the laws under which the account is balanced.
use crypto_swing_bot.Prelude.{◌≡◌, sym, ap, ◌∙◌}
use crypto_swing_bot.Float.{Float}

pub record IsExact (F : Type 0) ⦃f : Float F⦄ : Type 0 where
  pub add_comm : (a b : F) → f.add a b ≡ f.add b a
  pub add_assoc : (a b c : F) → f.add (f.add a b) c ≡ f.add a (f.add b c)
  pub zero_add : (a : F) → f.add (f.lit 0 0) a ≡ a
  pub sub_add : (a b : F) → f.add (f.sub a b) b ≡ a

module _ {F : Type 0} ⦃f : Float F⦄ (x : IsExact F) where
  open f use {add, sub}
  open x use {add_comm, add_assoc, sub_add}

  pub add_left_comm : (a b c : F) → add a (add b c) ≡ add b (add a c)
  add_left_comm a b c = sym (add_assoc a b c) ∙ ap (λ z. add z c) (add_comm a b) ∙ add_assoc b a c

  -- What is paid for a position goes from the cash into the position.
  pub pay : (cash cost invested : F) → add (sub cash cost) (add cost invested) ≡ add cash invested
  pay cash cost invested =
      sym (add_assoc (sub cash cost) cost invested) ∙ ap (λ z. add z invested) (sub_add cash cost)

  -- What an exit brings in is the cost of the position and the profit.
  pub take_profit :
      (cash net cost invested initial realised : F)
      → add cash (add cost invested) ≡ add initial realised
      → add (add cash net) invested ≡ add initial (add realised (sub net cost))
  take_profit cash net cost invested initial realised h =
      add_assoc cash net invested
      ∙ ap (add cash) (
          ap (λ z. add z invested) (sym (sub_add net cost) ∙ add_comm (sub net cost) cost)
          ∙ add_assoc cost (sub net cost) invested
          ∙ ap (add cost) (add_comm (sub net cost) invested)
          ∙ sym (add_assoc cost invested (sub net cost)))
      ∙ sym (add_assoc cash (add cost invested) (sub net cost))
      ∙ ap (λ z. add z (sub net cost)) h
      ∙ add_assoc initial realised (sub net cost)
