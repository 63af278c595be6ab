-- ===== src/Domain.antt =====
-- internal/domain: the errors, the context values and the result of a command.
use keyp.Base.{ℕ, Option, none, some}
use keyp.Bytes.{Bytes, codes}

-- The errors that the program names, those of its standard library's contexts, and those of LMDB,
-- which are numbers.
pub data Error : Type 0 where
  empty canceled invalid_float invalid_integer wrong_type : Error
  key_not_found not_integer context_canceled storage_wrong_type : Error
  background_canceled deadline_exceeded : Error
  not_found : Error
  lmdb : ℕ → Error
  message : Bytes → Error

pub data CtxError : Type 0 where
  cancel deadline : CtxError

-- The values a context carries, and what its `Done` channel shows at the i-th time that one storage
-- operation asks.
pub record Context : Type 0 where
  pub db : Option ℕ
  pub id : Option ℕ
  pub done : ℕ → Option CtxError

-- `ctx.Value(domain.DB).(uint8)`, whose failed assertion leaves 0.
abbrev pub db_of : Context → ℕ
db_of ctx = elim ctx.db [ none ↦ 0 | some d ↦ d ]

abbrev pub background : Context
background = record { db = none; id = none; done = λ i. none }

pub record Result : Type 0 where
  pub error : Option Error
  pub response : Option Bytes

abbrev pub ok_bytes : Bytes
ok_bytes = codes "OK"

abbrev pub pong : Bytes
pong = codes "PONG"

abbrev pub queued : Bytes
queued = codes "QUEUED"

abbrev pub new_result : Result
new_result = record { error = none; response = none }

unfoldable pub set_canceled : Result → Result
set_canceled r = record { error = some canceled; response = none }

unfoldable pub set_empty : Result → Result
set_empty r = record { error = some empty; response = none }

unfoldable pub set_nil : Result → Result
set_nil r = record { error = none; response = none }

unfoldable pub set_ok : Result → Result
set_ok r = record { error = none; response = some ok_bytes }
