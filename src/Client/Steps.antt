-- ===== src/Client/Steps.antt =====
-- Properties of the client that a sequence of steps keeps, exceptions included.
use epic_1bit2qbit.Prelude.{Bool, true, false, if◌then◌else◌}
use epic_1bit2qbit.Prelude.Text.{Bytes}
use epic_1bit2qbit.Prelude.Result.{Result, ok, err, Exec, bind_result}
use epic_1bit2qbit.Client.State.{Client, try_catch, handled}

module _ {J : Type 0} (P : Client J → Type 0) where
  -- Whatever the outcome, the client that the step leaves has the property.
  abbrev pub Holds {ℓ} : {A : Type ℓ} → Result A × Client J → Type 0
  Holds (ok a, c) = P c
  Holds (err e, c) = P c

  pub bind-Holds {ℓ κ} :
      {A : Type ℓ} {B : Type κ} (r : Result A × Client J) (f : A → Exec (Client J) B)
      → Holds r
      → ((a : A) (c : Client J) → P c → Holds (f a c))
      → Holds (bind_result r f)
  bind-Holds (ok a, c) f h g = g a c h
  bind-Holds (err e, c) f h g = h

  pub handled-Holds {ℓ} :
      {A : Type ℓ} (r : Result A × Client J) (recover : Bytes → Exec (Client J) A)
      → Holds r
      → ((e : Bytes) (d : Client J) → P d → Holds (recover e d))
      → Holds (handled r recover)
  unfolding handled
  handled-Holds (ok a, d) recover h g = h
  handled-Holds (err e, d) recover h g = g e d h

  pub try_catch-Holds {ℓ} :
      {A : Type ℓ} (m : Exec (Client J) A) (recover : Bytes → Exec (Client J) A) (c : Client J)
      → Holds (m c)
      → ((e : Bytes) (d : Client J) → P d → Holds (recover e d))
      → Holds (try_catch m recover c)
  unfolding try_catch
  try_catch-Holds m recover c h g = handled-Holds (m c) recover h g

  pub if-Holds {ℓ} :
      {A : Type ℓ} (b : Bool) (m n : Exec (Client J) A) (c : Client J)
      → Holds (m c)
      → Holds (n c)
      → Holds ((if b then m else n) c)
  if-Holds true m n c h k = h
  if-Holds false m n c h k = k

  -- A step that ends without an exception leaves the property.
  abbrev pub Yields {ℓ} : {A : Type ℓ} → Result A × Client J → Type 0
  Yields (ok a, c) = P c
  Yields (err e, c) = Unit

  pub bind-Yields {ℓ κ} :
      {A : Type ℓ} {B : Type κ} (r : Result A × Client J) (f : A → Exec (Client J) B)
      → ((a : A) (c : Client J) → Yields (f a c))
      → Yields (bind_result r f)
  bind-Yields (ok a, c) f g = g a c
  bind-Yields (err e, c) f g = tt

  pub then-Yields {ℓ κ} :
      {A : Type ℓ} {B : Type κ} (r : Result A × Client J) (f : A → Exec (Client J) B)
      → Yields r
      → ((a : A) (c : Client J) → P c → Yields (f a c))
      → Yields (bind_result r f)
  then-Yields (ok a, c) f h g = g a c h
  then-Yields (err e, c) f h g = tt

  pub lift-Yields {ℓ} : {A : Type ℓ} (r : Result A) (c : Client J) → P c → Yields (r, c)
  lift-Yields (ok a) c h = h
  lift-Yields (err e) c h = tt
