-- ===== src/Database/Inversion.antt =====
-- A transaction that returned: what its first statement returned, and the run of the rest. Each rule
-- hands both to the proof that goes on.
use semcomp2026_gameficacao.Prelude.{◌≡◌, refl, Bool, true, false, Option, none, some, arith}
use semcomp2026_gameficacao.Database.{Prisma}
use semcomp2026_gameficacao.Database.Failure.{Failure, Result, ok, err}
use semcomp2026_gameficacao.Database.Tx.{
  Db, Tx, ◌>>=◌, ◌>>◌, pure, reads, or_throw, reject_if, with_transaction, rethrow,
}

module _ ⦃P : Prisma⦄ {A B : Type 0} where
  abbrev continue : (A → Tx B) → Result (A × Db) → Result (B × Db)
  continue f (err e) = err e
  continue f (ok (a, db)) = f a db

module _ {ℓ} ⦃P : Prisma⦄ {A B : Type 0} {C : Type ℓ} where
  continue-elim :
      (f : A → Tx B) (x : Result (A × Db)) {r : B × Db}
      → continue f x ≡ ok r
      → ((a : A) (db' : Db) → x ≡ ok (a, db') → f a db' ≡ ok r → C)
      → C
  continue-elim f (err e) h k = absurd (cc)
  continue-elim f (ok (a, db')) h k = k a db' refl h

  pub >>=-elim :
      (m : Tx A) (f : A → Tx B) (db : Db) {r : B × Db}
      → (m >>= f) db ≡ ok r
      → ((a : A) (db' : Db) → m db ≡ ok (a, db') → f a db' ≡ ok r → C)
      → C
  unfolding ◌>>=◌
  >>=-elim m f db h k = continue-elim f (m db) (ground arith) k

  pub reads-elim :
      (g : Db → A) (f : A → Tx B) (db : Db) {r : B × Db}
      → (reads g >>= f) db ≡ ok r
      → (f (g db) db ≡ ok r → C)
      → C
  unfolding ◌>>=◌
  reads-elim g f db h k = k h

  pub or_throw-elim :
      (o : Option A) (e : Failure) (f : A → Tx B) (db : Db) {r : B × Db}
      → (or_throw o e >>= f) db ≡ ok r
      → ((a : A) → o ≡ some a → f a db ≡ ok r → C)
      → C
  unfolding ◌>>=◌
  or_throw-elim none e f db h k = absurd (cc)
  or_throw-elim (some a) e f db h k = k a refl h

module _ {ℓ} ⦃P : Prisma⦄ {B : Type 0} {C : Type ℓ} where
  pub reject_if-elim :
      (b : Bool) (e : Failure) (k : Tx B) (db : Db) {r : B × Db}
      → (reject_if b e >> k) db ≡ ok r
      → (b ≡ false → k db ≡ ok r → C)
      → C
  unfolding ◌>>=◌
  reject_if-elim true e k db h go = absurd (cc)
  reject_if-elim false e k db h go = go refl h

module _ ⦃P : Prisma⦄ {B : Type 0} where
  pub pure-ok :
      (a : B) (db : Db) {r : B} {db' : Db} → pure a db ≡ ok (r, db') → (r ≡ a) × (db' ≡ db)
  unfolding ◌>>=◌
  pure-ok a db h = ground arith

  -- The outer function of a service returns only if the transaction returned, and keeps its state.
  pub rethrow-ok :
      (f : Failure → Failure) (m : Tx B) (db : Db) {r : B}
      → (rethrow f (with_transaction m db)).0 ≡ ok r
      → m db ≡ ok (r, (rethrow f (with_transaction m db)).1)
  rethrow-ok f m db h = ground arith

  pub rethrow-err :
      (f : Failure → Failure) (m : Tx B) (db : Db) {e : Failure}
      → (rethrow f (with_transaction m db)).0 ≡ err e
      → (rethrow f (with_transaction m db)).1 ≡ db
  rethrow-err f m db h = ground arith
