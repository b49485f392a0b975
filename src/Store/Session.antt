-- ===== src/Store/Session.antt =====
-- The session of one request (`get_db` of app/db.py). A service works on `work`; `db.commit()`
-- makes that the saved database. `get_db` closes the session when the handler has returned or
-- raised, and what was not committed is rolled back.
use feature_asset_inventory.Base.Http.{Result, ok, err}
use feature_asset_inventory.Store.{Store}

pub record Session : Type 0 where
  pub work : Store
  pub saved : Store

-- A service function: what it returns or raises, and the session that it leaves.
abbrev pub Action : Type 0 → Type 0
Action A = Session → Result A × Session

module _ {A : Type 0} where
  abbrev pub pure : A → Action A
  pure a s = (ok a, s)

  -- A check or a query over what the session sees; it may raise.
  abbrev pub query : (Store → Result A) → Action A
  query f s = (f s.work, s)

infixl 5 ◌>>=◌ ◌>>◌
abbrev pub ◌>>=◌ : {A B : Type 0} → Action A → (A → Action B) → Action B
◌>>=◌ m f s = let (r, s') = m s in elim r [ ok a ↦ f a s' | err e ↦ (err e, s') ]

abbrev pub ◌>>◌ : {A B : Type 0} → Action A → Action B → Action B
m >> k = m >>= λ _. k

-- A statement that the session sends, or writes at the next flush.
abbrev pub modify : (Store → Store) → Action (Unit {0})
modify f s = (ok tt, record s { work = f s.work })

abbrev pub commit : Action (Unit {0})
commit s = (ok tt, record s { saved = s.work })

-- `get_db` around a handler.
abbrev pub request : {A : Type 0} → Action A → Store → Result A × Store
request op db = let (r, s) = op (record { work = db; saved = db }) in (r, s.saved)

-- The database after a request.
abbrev pub after : {A : Type 0} → Action A → Store → Store
after op db = (request op db).1

-- What the handler returned or raised.
abbrev pub reply : {A : Type 0} → Action A → Store → Result A
reply op db = (request op db).0
