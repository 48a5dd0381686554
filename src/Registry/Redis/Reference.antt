-- ===== src/Registry/Redis/Reference.antt =====
-- Redis as its documentation describes the commands: the reference `store`, on which no command
-- fails, and `Documented`, by which every command that succeeds does what it does there.
use memory_archive.Prelude.{
  if◌then◌else◌, unwrap_or, is_some, is_empty, ℤ, pos, ℕ, suc, ◌+◌, ◌≡◌, refl, Bool, true, false,
  not, ◌||◌, Option, none, some, List, [], ◌∷◌,
}
use memory_archive.Prelude.Result.{ok, err, Result}
use memory_archive.Text.{Str, str_eq}
use memory_archive.Text.Decimal.{show_nat, parse_u32}
use memory_archive.Registry.Schema.{Fields, field}
use memory_archive.Registry.Redis.{Db, Failure, Op, continue_with, ◌>>=◌, Redis}

unfoldable pub put_field : Str → Str → Fields → Fields
put_field name value [] = (name, value) ∷ []
put_field name value ((other, old) ∷ rest) =
    let later = put_field name value rest in
    if str_eq name other then (other, value) ∷ rest else (other, old) ∷ later

unfoldable pub put_fields : Fields → Fields → Fields
unfolding put_field
put_fields [] fields = fields
put_fields ((name, value) ∷ rest) fields = put_fields rest (put_field name value fields)

unfoldable pub has : Str → List Str → Bool
has id [] = false
has id (other ∷ rest) = str_eq id other || has id rest

unfoldable pub insert : Str → List Str → List Str
insert id ids = if has id ids then ids else id ∷ ids

unfoldable pub remove : Str → List Str → List Str
remove id [] = []
remove id (other ∷ rest) =
    let later = remove id rest in if str_eq id other then later else other ∷ later

-- A function changed at one key.
abbrev pub at_key : {A : Type 0} → Str → A → (Str → A) → Str → A
at_key key value f other = if str_eq other key then value else f other

unfoldable pub present : Str → Db → Bool
present key db =
    not (is_empty (db.hash key)) || not (is_empty (db.members key)) || is_some (db.text key)

unfoldable pub drop_key : Str → Db → Db
drop_key key db = record {
  hash = at_key key [] db.hash;
  members = at_key key [] db.members;
  text = at_key key none db.text;
  expiry = at_key key none db.expiry;
}

-- a time to live of no seconds or fewer drops the key
unfoldable pub expire_in : Str → ℤ → Db → Db
expire_in key (pos (suc n)) db = record db { expiry = at_key key (some (pos (suc n))) db.expiry }
expire_in key seconds db = drop_key key db

-- `INCR` counts up from the number in the text, or from none
next_count : Option Str → ℕ
next_count none = 1
next_count (some n) = unwrap_or 0 (parse_u32 n) + 1

-- the command `SET key value NX EX seconds`
unfoldable pub set_absent : Str → Str → ℕ → Op Bool
set_absent key value seconds db = if present key db then (db, ok false) else (
  record db {
    text = at_key key (some value) db.text;
    expiry = at_key key (some (pos seconds)) db.expiry;
  },
  ok true,
)

unfoldable pub hset : Str → Fields → Op (Unit {0})
hset key fields db =
    (record db { hash = at_key key (put_fields fields (db.hash key)) db.hash }, ok tt)

unfoldable pub sadd : Str → Str → Op (Unit {0})
sadd key id db = (record db { members = at_key key (insert id (db.members key)) db.members }, ok tt)

unfoldable pub srem : Str → Str → Op (Unit {0})
srem key id db = (record db { members = at_key key (remove id (db.members key)) db.members }, ok tt)

unfoldable pub del : Str → Op ℕ
del key db = (drop_key key db, ok (if present key db then 1 else 0))

unfoldable pub persist : Str → Op Bool
persist key db = (record db { expiry = at_key key none db.expiry }, ok (is_some (db.expiry key)))

unfoldable pub expire : Str → ℤ → Op (Unit {0})
expire key seconds db = (if present key db then expire_in key seconds db else db, ok tt)

unfoldable pub incr : Str → Op ℕ
unfolding next_count
incr key db = (
  record db { text = at_key key (some (show_nat (next_count (db.text key)))) db.text },
  ok (next_count (db.text key)),
)

unfoldable pub store : Redis
store = record {
  exists = λ key db. (db, ok (present key db));
  hset = hset;
  hget = λ key name db. (db, ok (field name (db.hash key)));
  hgetall = λ key db. (db, ok (db.hash key));
  del = del;
  sadd = sadd;
  srem = srem;
  smembers = λ key db. (db, ok (db.members key));
  persist = persist;
  expire = expire;
  get = λ key db. (db, ok (db.text key));
  set_nx_ex = set_absent;
  incr = incr;
  hmget = λ key a b c db.
      (db, ok (field a (db.hash key), field b (db.hash key), field c (db.hash key)));
}

-- A method that succeeds has done and returned what the other one does.
pub record Follows {A : Type 0} (m reference : Op A) : Type 0 where
  pub same : (db db' : Db) (a : A) → m db ≡ (db', ok a) → reference db ≡ (db', ok a)

-- What the database documents, as far as a command succeeds. The order of `SMEMBERS` is open.
pub record Documented (r : Redis) : Type 0 where
  pub exists_lem : (key : Str) → Follows (r.exists key) (store.exists key)
  pub hset_lem : (key : Str) (fields : Fields) → Follows (r.hset key fields) (store.hset key fields)
  pub hget_lem : (key name : Str) → Follows (r.hget key name) (store.hget key name)
  pub hgetall_lem : (key : Str) → Follows (r.hgetall key) (store.hgetall key)
  pub del_lem : (key : Str) → Follows (r.del key) (store.del key)
  pub sadd_lem : (key id : Str) → Follows (r.sadd key id) (store.sadd key id)
  pub srem_lem : (key id : Str) → Follows (r.srem key id) (store.srem key id)
  pub smembers_lem :
      (key : Str) (db : Db) {db' : Db} {ids : List Str}
      → r.smembers key db ≡ (db', ok ids)
      → (db' ≡ db) × ((id : Str) → has id ids ≡ has id (db.members key))
  pub persist_lem : (key : Str) → Follows (r.persist key) (store.persist key)
  pub expire_lem :
      (key : Str) (seconds : ℤ) → Follows (r.expire key seconds) (store.expire key seconds)
  pub get_lem : (key : Str) → Follows (r.get key) (store.get key)
  pub set_nx_ex_lem :
      (key value : Str) (seconds : ℕ)
      → Follows (r.set_nx_ex key value seconds) (store.set_nx_ex key value seconds)
  pub hmget_lem : (key a b c : Str) → Follows (r.hmget key a b c) (store.hmget key a b c)
  pub incr_lem : (key : Str) → Follows (r.incr key) (store.incr key)

-- The rules by which a method follows another.
pub Follows-refl : {A : Type 0} (m : Op A) → Follows m m
Follows-refl m = record { same = λ db db' a h. h }

continue_with-same :
    {A B : Type 0} (f g : A → Op B)
    → ((a : A) → Follows (f a) (g a))
    → (ran reference : Db × Result Failure A)
    → ((db : Db) (a : A) → ran ≡ (db, ok a) → reference ≡ (db, ok a))
    → (db' : Db) (b : B) → continue_with f ran ≡ (db', ok b)
    → continue_with g reference ≡ (db', ok b)
continue_with-same f g later (db, ok a) reference first db' b h =
    rw (first db a refl) ((later a).same db db' b h)
continue_with-same f g later (db, err e) reference first db' b h = cc

pub bind-Follows :
    {A B : Type 0} {m m' : Op A} (f g : A → Op B)
    → Follows m m'
    → ((a : A) → Follows (f a) (g a))
    → Follows (m >>= f) (m' >>= g)
bind-Follows {m = m} {m' = m'} f g first later = record {
  same = λ db db' b h. continue_with-same f g later (m db) (m' db) (first.same db) db' b h;
}
