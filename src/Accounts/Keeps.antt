-- ===== src/Accounts/Keeps.antt =====
-- Transactions that keep an invariant of the database, statement by statement.
use mathlib.Core.Path.{subst}
use semcomp2026_gameficacao.Prelude.{◌≡◌, refl, Bool, true, false, Option, none, some}
use semcomp2026_gameficacao.Database.{Prisma}
use semcomp2026_gameficacao.Database.Failure.{Failure, Result, ok, err}
use semcomp2026_gameficacao.Database.Tx.{
  Db, Tx, ◌>>=◌, ◌>>◌, pure, reads, or_throw, reject_if, with_transaction, rethrow,
}

module _ ⦃P : Prisma⦄ (I : Db → Type 0) where
  -- A transaction that throws leaves nothing to keep.
  abbrev pub Holds : {A : Type 0} → Result (A × Db) → Type 0
  Holds (err e) = Unit
  Holds (ok (a, db)) = I db

module _ ⦃P : Prisma⦄ where
  -- From a state of which `I` holds to one of which `J` holds.
  unfoldable pub Carries : (I J : Db → Type 0) {A : Type 0} → Tx A → Type 0
  Carries I J m = (db : Db) → I db → Holds J (m db)

  abbrev pub Keeps : (I : Db → Type 0) {A : Type 0} → Tx A → Type 0
  Keeps I m = Carries I I m

module _ ⦃P : Prisma⦄ (I : Db → Type 0) {A B : Type 0} where
  continue-Holds :
      (f : A → Tx B) (x : Result (A × Db))
      → ((a : A) (db' : Db) → x ≡ ok (a, db') → Holds I (f a db'))
      → Holds I (elim x [ err e ↦ err e | ok (a, db') ↦ f a db' ])
  continue-Holds f (err e) k = tt
  continue-Holds f (ok (a, db')) k = k a db' refl

  pub >>=-Holds :
      (m : Tx A) (f : A → Tx B) (db : Db)
      → ((a : A) (db' : Db) → m db ≡ ok (a, db') → Holds I (f a db'))
      → Holds I ((m >>= f) db)
  unfolding ◌>>=◌ Carries
  >>=-Holds m f db k = continue-Holds f (m db) k

module _ ⦃P : Prisma⦄ (I J K : Db → Type 0) {A B : Type 0} where
  then-Holds :
      (f : A → Tx B) (x : Result (A × Db))
      → Holds J x
      → ((a : A) → Carries J K (f a))
      → Holds K (elim x [ err e ↦ err e | ok (a, db') ↦ f a db' ])
  unfolding Carries
  then-Holds f (err e) h k = tt
  then-Holds f (ok (a, db')) h k = k a db' h

  pub >>=-Carries :
      (m : Tx A) (f : A → Tx B)
      → Carries I J m
      → ((a : A) → Carries J K (f a))
      → Carries I K (m >>= f)
  unfolding ◌>>=◌ Carries
  >>=-Carries m f h k db i = then-Holds f (m db) (h db i) k

module _ ⦃P : Prisma⦄ (I : Db → Type 0) {A B : Type 0} where
  pub >>=-Keeps :
      (m : Tx A) (f : A → Tx B) → Keeps I m → ((a : A) → Keeps I (f a)) → Keeps I (m >>= f)
  >>=-Keeps m f h k = >>=-Carries I I I m f h k

module _ ⦃P : Prisma⦄ (I : Db → Type 0) {A : Type 0} where
  pub pure-Keeps : (a : A) → Keeps I (pure a)
  unfolding ◌>>=◌ Carries
  pure-Keeps a db i = i

  pub reads-Keeps : (f : Db → A) → Keeps I (reads f)
  unfolding ◌>>=◌ Carries
  reads-Keeps f db i = i

  pub or_throw-Keeps : (o : Option A) (e : Failure) → Keeps I (or_throw o e)
  unfolding ◌>>=◌ Carries
  or_throw-Keeps none e db i = tt
  or_throw-Keeps (some a) e db i = i

  ok-kept : (x : Result (A × Db)) {a : A} {db : Db} → Holds I x → x ≡ ok (a, db) → I db
  ok-kept (err e) h eq = absurd (cc)
  ok-kept (ok (b, db')) {a} {db} h eq = subst (λ x. Holds I {A = A} x) eq h

  -- What a transaction keeps holds in the state that it returned.
  pub ok-Keeps :
      (m : Tx A) (db : Db) {a : A} {db' : Db} → Keeps I m → I db → m db ≡ ok (a, db') → I db'
  unfolding Carries
  ok-Keeps m db k i eq = ok-kept (m db) (k db i) eq

  kept :
      (x : Result (A × Db)) {db : Db}
      → I db
      → Holds I x
      → I (elim x as (λ _. Result A × Db) [ err e ↦ (err e, db) | ok (a, db') ↦ (ok a, db') ]).1
  kept (err e) i h = i
  kept (ok (a, db')) i h = h

  pub with_transaction-Holds :
      (m : Tx A) (db : Db) → I db → Holds I (m db) → I (with_transaction m db).1
  with_transaction-Holds m db i h = kept (m db) i h

  pub with_transaction-Keeps : (m : Tx A) (db : Db) → I db → Keeps I m → I (with_transaction m db).1
  unfolding Carries
  with_transaction-Keeps m db i h = kept (m db) i (h db i)

  rethrow-kept : (f : Failure → Failure) (x : Result A × Db) → I x.1 → I (rethrow f x).1
  rethrow-kept f (ok a, db) i = i
  rethrow-kept f (err e, db) i = i

  pub rethrow-Holds :
      (f : Failure → Failure) (m : Tx A) (db : Db)
      → I db
      → Holds I (m db)
      → I (rethrow f (with_transaction m db)).1
  rethrow-Holds f m db i h = rethrow-kept f (with_transaction m db) (kept (m db) i h)

  pub rethrow-Keeps :
      (f : Failure → Failure) (m : Tx A) (db : Db)
      → I db
      → Keeps I m
      → I (rethrow f (with_transaction m db)).1
  rethrow-Keeps f m db i h =
      rethrow-kept f (with_transaction m db) (with_transaction-Keeps m db i h)

module _ ⦃P : Prisma⦄ (I : Db → Type 0) where
  pub reject_if-Keeps : (b : Bool) (e : Failure) → Keeps I (reject_if b e)
  unfolding ◌>>=◌ Carries
  reject_if-Keeps true e db i = tt
  reject_if-Keeps false e db i = i

  pub reject_if-Holds :
      {B : Type 0} (b : Bool) (e : Failure) (m : Tx B) (db : Db)
      → (b ≡ false → Holds I (m db))
      → Holds I ((reject_if b e >> m) db)
  unfolding ◌>>=◌
  reject_if-Holds true e m db k = tt
  reject_if-Holds false e m db k = k refl

  pub or_throw-Holds :
      {A B : Type 0} (x : Option A) (e : Failure) (f : A → Tx B) (db : Db)
      → ((a : A) → x ≡ some a → Holds I (f a db))
      → Holds I ((or_throw x e >>= f) db)
  unfolding ◌>>=◌
  or_throw-Holds none e f db k = tt
  or_throw-Holds (some a) e f db k = k a refl

  pub reads-Holds :
      {A B : Type 0} (g : Db → A) (f : A → Tx B) (db : Db)
      → Holds I (f (g db) db)
      → Holds I ((reads g >>= f) db)
  unfolding ◌>>=◌
  reads-Holds g f db h = h

  pub Carries-Holds :
      {A : Type 0} (J : Db → Type 0) (m : Tx A) (db : Db) → Carries J I m → J db → Holds I (m db)
  unfolding Carries
  Carries-Holds J m db moves j = moves db j
