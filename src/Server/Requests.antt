-- ===== src/Server/Requests.antt =====
-- The steps of `dispatch` of services/core-api/src/main.rs: it reads the body of a frame and calls the
-- operations of the backend. An error ends it, but what the calls before it have committed stays.
use resilient_messenger.Prelude.{Bool, true, false, Bytes, ◌==◌, if◌then◌else◌, Result, ok, err}
use resilient_messenger.Cursor.{Cursor, Parser}
use resilient_messenger.Api.{ApiError, invalid_input, Backend}
use resilient_messenger.Api.Sessions.{authenticate_access}
use resilient_messenger.Server.Reader.{Ambient, array, u8}

abbrev pub M : Type 0 → Type 0
M A = Backend → Cursor → Result ApiError (A × Cursor) × Backend

abbrev pub continue :
    {A B : Type 0}
    → (A → M B)
    → Result ApiError (A × Cursor) × Backend
    → Result ApiError (B × Cursor) × Backend
continue f (ok (a, d), db) = f a db d
continue f (err e, db) = (err e, db)

infixl 5 ◌>>=◌ ◌>>◌
unfoldable pub ◌>>=◌ : {A B : Type 0} → M A → (A → M B) → M B
◌>>=◌ m f db d = continue f (m db d)

abbrev pub ◌>>◌ : {A B : Type 0} → M A → M B → M B
m >> k = m >>= λ _. k

unfoldable pub return : {A : Type 0} → A → M A
return a db d = (ok (a, d), db)

unfoldable pub refuse : {A : Type 0} → ApiError → M A
refuse e db d = (err e, db)

-- A method of the reader.
unfoldable pub read : {A : Type 0} → Parser ApiError A → M A
read p db d = (p d, db)

-- An operation that changes the backend, and one that only reads it.
abbrev pub keep :
    {A : Type 0} → Cursor → Result ApiError A × Backend → Result ApiError (A × Cursor) × Backend
keep d (ok a, db) = (ok (a, d), db)
keep d (err e, db) = (err e, db)

unfoldable pub call : {A : Type 0} → (Backend → Result ApiError A × Backend) → M A
call f db d = keep d (f db)

unfoldable pub query : {A : Type 0} → (Backend → Result ApiError A) → M A
query f db d = keep d (f db, db)

-- `match body.u8()? { 0 => …, 1 => …, _ => return Err(ApiError::InvalidInput) }`
unfoldable pub read_flag : M Bool
read_flag = do
  n ← read u8
  if n == 0 then return false else if n == 1 then return true else refuse invalid_input

unfoldable pub authenticated : Ambient → M Bytes
authenticated w = do token ← read (array 32); query (authenticate_access w.sha256 token w.now)
