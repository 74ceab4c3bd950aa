-- ===== src/World/Ends.antt =====
-- Calls that return: neither a panic nor an error of the database.
use arb_reth.Prelude.{◌≡◌, refl, ◌∙◌, Bool, true, false, if◌then◌else◌}
use arb_reth.Host.{Host}
use arb_reth.World.{World, M, ok, pure, ◌>>=◌, bind-ok}

module _ ⦃h : Host⦄ where
  -- A call returns a result and leaves a world, of which `Q` holds.
  pub record Ends {A : Type 0} (m : M A) (w : World h) (Q : A → World h → Type 0) : Type 0 where
    pub result : A
    pub after : World h
    pub returned : m w ≡ ok result after
    pub left_with : Q result after

  pub Ends-pure :
      {A : Type 0} (a : A) (w : World h) {Q : A → World h → Type 0} → Q a w → Ends (pure a) w Q
  Ends-pure a w q = record { result = a; after = w; returned = refl; left_with = q }

  pub Ends-bind :
      {A B : Type 0} (m : M A) (k : A → M B) (w : World h) {P : A → World h → Type 0}
      {Q : B → World h → Type 0}
      → Ends m w P
      → ((a : A) (w' : World h) → P a w' → Ends (k a) w' Q)
      → Ends (m >>= k) w Q
  Ends-bind m k w first second =
      let rest = second first.result first.after first.left_with in
      record {
        result = rest.result;
        after = rest.after;
        returned = bind-ok m k w first.returned ∙ rest.returned;
        left_with = rest.left_with;
      }

  pub Ends-if :
      {A : Type 0} (b : Bool) (m k : M A) (w : World h) {Q : A → World h → Type 0}
      → (b ≡ true → Ends m w Q)
      → (b ≡ false → Ends k w Q)
      → Ends (if b then m else k) w Q
  Ends-if true m k w p q = p refl
  Ends-if false m k w p q = q refl

  pub Ends-bind_ok :
      {A B : Type 0} (m : M A) (k : A → M B) (w : World h) {a : A} {w' : World h}
      {Q : B → World h → Type 0}
      → m w ≡ ok a w'
      → Ends (k a) w' Q
      → Ends (m >>= k) w Q
  Ends-bind_ok m k w e rest = record {
    result = rest.result;
    after = rest.after;
    returned = bind-ok m k w e ∙ rest.returned;
    left_with = rest.left_with;
  }
