-- ===== src/Registry/Redis.antt =====
-- What ma-core/src/registry/mod.rs uses of Redis: the commands are a parameter, a record `Redis`,
-- and `Documented` is what Redis documents of them. A command that fails may have left anything.
pub mod Reference
use memory_archive.Prelude.{ℤ, ℕ, Bool, not, Option, none, some, List}
use memory_archive.Prelude.Result.{Result, ok, err}
use memory_archive.Text.{Str}
use memory_archive.Registry.Schema.{Fields}

-- The contents of the database by key. A key that is not there has no fields, no members and no
-- text.
pub record Db : Type 0 where
  pub hash : Str → Fields
  pub members : Str → List Str
  pub text : Str → Option Str
  pub expiry : Str → Option ℤ

-- why a method of the registry returns an error: a command failed, or a guard of the method
pub data Failure : Type 0 where
  command_failed : Failure
  already_exists : Failure
  not_found : Failure
  unreadable : Failure
  empty_session_id : Failure
  annotator_exists : Failure
  annotator_not_found : Failure

-- A command, and a method that sends commands with `?` behind each.
abbrev pub Op : Type 0 → Type 0
Op A = Db → Db × Result Failure A

abbrev pub continue_with :
    {A B : Type 0} → (A → Op B) → Db × Result Failure A → Db × Result Failure B
continue_with f (db, ok a) = f a db
continue_with f (db, err e) = (db, err e)

infixl 10 ◌>>=◌ ◌>>◌
abbrev pub ◌>>=◌ : {A B : Type 0} → Op A → (A → Op B) → Op B
◌>>=◌ m f db = continue_with f (m db)

abbrev pub ◌>>◌ : {B : Type 0} → Op (Unit {0}) → Op B → Op B
m >> k = m >>= λ _. k

abbrev pub return : {A : Type 0} → A → Op A
return a db = (db, ok a)

abbrev pub fail : {A : Type 0} → Failure → Op A
fail e db = (db, err e)

abbrev pub or_fail : {A : Type 0} → Failure → Option A → Op A
or_fail e (some a) = return a
or_fail e none = fail e

-- What a call left in the database, and what it returned, or another value if it failed.
abbrev pub left_in : {A : Type 0} → Db × Result Failure A → Db
left_in ran = ran.0

abbrev pub answer : {A : Type 0} → A → Result Failure A → A
answer other (ok a) = a
answer other (err e) = other

pub record Redis : Type 0 where
  pub exists : Str → Op Bool
  pub hset : Str → Fields → Op (Unit {0})
  pub hget : Str → Str → Op (Option Str)
  pub hgetall : Str → Op Fields
  pub del : Str → Op ℕ
  pub sadd : Str → Str → Op (Unit {0})
  pub srem : Str → Str → Op (Unit {0})
  pub smembers : Str → Op (List Str)
  pub persist : Str → Op Bool
  pub expire : Str → ℤ → Op (Unit {0})
  pub get : Str → Op (Option Str)
  pub set_nx_ex : Str → Str → ℕ → Op Bool
  pub incr : Str → Op ℕ
  -- three fields of a hash
  pub hmget : Str → Str → Str → Str → Op (Option Str × Option Str × Option Str)
