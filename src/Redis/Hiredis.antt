-- ===== src/Redis/Hiredis.antt =====
-- What common/redis_op.c uses of the hiredis library: the struct redisReply, and the calls as a
-- parameter over an abstract server. The format strings of the source are written as lists of
-- arguments, since hiredis takes a `%s` for one argument whatever bytes it holds.
use cloud_disk_server.Prelude.{◌≡◌, refl, ℕ, Bool, true, false, Option, none, some, List}
use cloud_disk_server.Prelude.Int.{ℤ, negsuc}
use cloud_disk_server.Prelude.Text.{Bytes}
use cloud_disk_server.Prelude.Outcome.{Outcome, done, fault}

-- `REDIS_REPLY_STATUS` and the other values of `reply->type`.
pub data ReplyType : Type 0 where
  status_reply error_reply integer_reply nil_reply array_reply string_reply : ReplyType

-- struct redisReply: hiredis leaves the fields that a type does not use at zero. `str` is NULL for
-- `none`, and `element` holds the `str` of each entry.
pub record RedisReply : Type 0 where
  pub kind : ReplyType
  pub integer : ℤ
  pub str : Option Bytes
  pub element : List (Option Bytes)

pub data Arg : Type 0 where
  text : Bytes → Arg
  number : ℤ → Arg

-- A command by its arguments, or as a text that hiredis splits.
pub data Command : Type 0 where
  args : List Arg → Command
  raw : Bytes → Command

-- The library with the server behind it. `append_command` and `get_reply` tell whether they return
-- REDIS_OK; `failed` is `conn->err != 0`.
pub record Hiredis : Type 1 where
  pub Context : Type 0
  pub Server : Type 0
  pub command : Context → Command → Server → Option RedisReply × Server
  pub append_command : Context → Command → Server → Bool × Server
  pub get_reply : Context → Server → Bool × Server
  pub connect : Bytes → ℕ → Server → Option Context × Server
  pub connect_timeout : Bytes → ℕ → ℕ → Server → Option Context × Server
  pub connect_unix : Bytes → Server → Option Context × Server
  pub failed : Context → Bool
  pub free : Context → Server → Server

-- A call that may change the state `S`, and may be undefined.
abbrev pub M : Type 0 → Type 0 → Type 0
M S A = S → Outcome (A × S)

infixl 5 ◌>>=◌
abbrev pub ◌>>=◌ : {S A B : Type 0} → M S A → (A → M S B) → M S B
◌>>=◌ m f s = elim (m s) [ done (a, s') ↦ f a s' | fault ↦ fault ]

after : {S A B : Type 0} → (A → M S B) → Outcome (A × S) → Outcome (B × S)
after f (done (a, s)) = f a s
after f fault = fault

bind-after :
    {S A B : Type 0} (m : M S A) (f : A → M S B) (s : S) (o : Outcome (A × S))
    → m s ≡ o
    → (m >>= f) s ≡ after f o
unfolding after
bind-after m f s (done (a, t)) e = rw (e, ◌>>=◌) refl
bind-after m f s fault e = rw (e, ◌>>=◌) refl

pub bind_done :
    {S A B : Type 0} (m : M S A) (f : A → M S B) {s t : S} {a : A}
    → m s ≡ done (a, t)
    → (m >>= f) s ≡ f a t
unfolding after
bind_done m f e = bind-after m f _ _ e

abbrev pub ret : {S A : Type 0} → A → M S A
ret a s = done (a, s)

-- A read through a pointer that may be NULL.
abbrev pub follow : {S A : Type 0} → Option A → M S A
follow none s = fault
follow (some a) s = done (a, s)

-- A computation that leaves the state alone.
abbrev pub lift : {S A : Type 0} → Outcome A → M S A
lift (done a) s = done (a, s)
lift fault s = fault

abbrev pub minus_one : ℤ
minus_one = negsuc 0

abbrev pub is_integer : ReplyType → Bool
is_integer ReplyType.integer_reply = true
is_integer _ = false

abbrev pub is_string : ReplyType → Bool
is_string ReplyType.string_reply = true
is_string _ = false

abbrev pub is_array : ReplyType → Bool
is_array ReplyType.array_reply = true
is_array _ = false

abbrev pub is_status : ReplyType → Bool
is_status ReplyType.status_reply = true
is_status _ = false

module _ (h : Hiredis) where
  open h use {Context, Server, command, append_command, get_reply}

  -- `redisCommand`; hiredis reads through `conn`.
  unfoldable pub redis_command : Option Context → Command → M Server (Option RedisReply)
  redis_command none c s = fault
  redis_command (some conn) c s = done (command conn c s)

  unfoldable pub redis_append_command : Option Context → Command → M Server Bool
  redis_append_command none c s = fault
  redis_append_command (some conn) c s = done (append_command conn c s)

  unfoldable pub redis_get_reply : Option Context → M Server Bool
  redis_get_reply none s = fault
  redis_get_reply (some conn) s = done (get_reply conn s)
