-- ===== src/Validation.antt =====
-- The checks of input that the packages of the domain share in form: internal/channel/channel.go,
-- internal/category/category.go, internal/server/server.go, internal/thread/thread.go,
-- internal/role/role.go, internal/member/member.go, internal/user/user.go, internal/invite/invite.go and
-- internal/message/message.go. A pointer is an option, and what is left in it is the result. A time is
-- a number. `strings.TrimSpace` and `utf8.RuneCountInString` are parameters.
pub mod Accepted
pub mod Limits
use Prim.Native.String.{String}
use uncord_server.Prelude.{
  ℕ, zero, suc, ◌≡◌, Bool, true, false, not, ◌||◌, Option, none, some, Bytes, [], ◌∷◌, ltb, leb,
  if◌then◌else◌, Error, sentinel, Result, ok, err, ◌>>=◌,
}
use uncord_server.Strconv.{ℤ, pos, negsuc}

pub record Texts : Type 0 where
  pub trim_space : Bytes → Bytes
  pub rune_count : Bytes → ℕ
  pub trim_space-trim_space : (s : Bytes) → trim_space (trim_space s) ≡ trim_space s

-- A range that starts at 0, for a number that may be absent.
unfoldable pub within : Error → ℕ → Option ℤ → Result (Unit {0})
within e most none = ok tt
within e most (some (negsuc n)) = err e
within e most (some (pos n)) = if ltb most n then err e else ok tt

unfoldable pub non_negative : Error → Option ℤ → Result (Unit {0})
non_negative e none = ok tt
non_negative e (some (negsuc n)) = err e
non_negative e (some (pos n)) = ok tt

abbrev pub channel_slowmode : Option ℤ → Result (Unit {0})
channel_slowmode = within (sentinel "slowmode seconds must be between 0 and 21600") 21600

abbrev pub channel_position : Option ℤ → Result (Unit {0})
channel_position = non_negative (sentinel "position must be non-negative")

abbrev pub category_position : Option ℤ → Result (Unit {0})
category_position = non_negative (sentinel "position must be non-negative")

abbrev pub role_position : Option ℤ → Result (Unit {0})
role_position = non_negative (sentinel "position must be non-negative")

abbrev pub role_colour : Option ℤ → Result (Unit {0})
role_colour = within (sentinel "colour must be between 0 and 16777215") 16777215

abbrev pub theme_colour : Option ℤ → Result (Unit {0})
theme_colour = within (sentinel "theme colour must be between 0 and 16777215") 16777215

abbrev pub invite_max_uses : Option ℤ → Result (Unit {0})
invite_max_uses = non_negative (sentinel "max uses must be non-negative")

abbrev pub invite_max_age : Option ℤ → Result (Unit {0})
invite_max_age = non_negative (sentinel "max age seconds must be non-negative")

abbrev pub default_limit : ℕ
default_limit = 50

abbrev pub max_limit : ℕ
max_limit = 100

-- `ClampLimit`, which four packages have with the same bounds.
unfoldable pub clamp_limit : ℤ → ℤ
clamp_limit (negsuc n) = pos default_limit
clamp_limit (pos zero) = pos default_limit
clamp_limit (pos (suc n)) = if ltb max_limit (suc n) then pos max_limit else pos (suc n)

pub record Invite : Type 0 where
  pub expires_at : Option ℕ
  pub max_uses : Option ℕ
  pub use_count : ℕ

unfoldable pub has_expired : Option ℕ → ℕ → Bool
has_expired none now = false
has_expired (some at) now = not (ltb now at)

unfoldable pub is_used_up : Option ℕ → ℕ → Bool
is_used_up none count = false
is_used_up (some most) count = leb most count

-- `Invite.Validate`, at a time.
unfoldable pub invite_valid : Invite → ℕ → Result (Unit {0})
invite_valid inv now =
    if has_expired inv.expires_at now
    then err (sentinel "invite has expired")
    else if is_used_up inv.max_uses inv.use_count
    then err (sentinel "invite has reached its maximum number of uses")
    else ok tt

module _ (X : Texts) where
  open X use {trim_space, rune_count}

  -- A name that must be there, trimmed.
  unfoldable pub trimmed : Error → ℕ → Bytes → Result Bytes
  trimmed e most name =
      let t = trim_space name in
      if ltb (rune_count t) 1 || ltb most (rune_count t) then err e else ok t

  -- A name that may be absent, replaced by the trimmed one.
  unfoldable pub trimmed_pointer : Error → ℕ → Option Bytes → Result (Option Bytes)
  trimmed_pointer e most none = ok none
  trimmed_pointer e most (some name) = do t ← trimmed e most name; ok (some t)

  unfoldable pub at_most : Error → ℕ → Option Bytes → Result (Unit {0})
  at_most e most none = ok tt
  at_most e most (some text) = if ltb most (rune_count text) then err e else ok tt

  unfoldable pub normalize : Option Bytes → Option Bytes
  normalize none = none
  normalize (some text) = some (trim_space text)

  unfoldable pub between : Error → ℕ → Option Bytes → Result (Unit {0})
  between e most none = ok tt
  between e most (some text) =
      if ltb (rune_count text) 1 || ltb most (rune_count text) then err e else ok tt

  abbrev pub channel_name_error : Error
  channel_name_error = sentinel "channel name must be between 1 and 100 characters"

  abbrev pub channel_name : Option Bytes → Result (Option Bytes)
  channel_name = trimmed_pointer channel_name_error 100

  abbrev pub channel_name_required : Bytes → Result Bytes
  channel_name_required = trimmed channel_name_error 100

  abbrev pub channel_topic : Option Bytes → Result (Unit {0})
  channel_topic = at_most (sentinel "channel topic must be 1024 characters or fewer") 1024

  abbrev pub category_name : Option Bytes → Result (Option Bytes)
  category_name =
      trimmed_pointer (sentinel "category name must be between 1 and 100 characters") 100

  abbrev pub category_name_required : Bytes → Result Bytes
  category_name_required =
      trimmed (sentinel "category name must be between 1 and 100 characters") 100

  abbrev pub server_name : Option Bytes → Result (Option Bytes)
  server_name = trimmed_pointer (sentinel "name must be between 1 and 100 characters") 100

  abbrev pub server_description : Option Bytes → Result (Unit {0})
  server_description = at_most (sentinel "description must be 1024 characters or fewer") 1024

  abbrev pub thread_name : Option Bytes → Result (Option Bytes)
  thread_name = trimmed_pointer (sentinel "thread name must be between 1 and 100 characters") 100

  abbrev pub thread_name_required : Bytes → Result Bytes
  thread_name_required = trimmed (sentinel "thread name must be between 1 and 100 characters") 100

  abbrev pub role_name : Option Bytes → Result (Option Bytes)
  role_name = trimmed_pointer (sentinel "role name must be between 1 and 100 characters") 100

  abbrev pub role_name_required : Bytes → Result Bytes
  role_name_required = trimmed (sentinel "role name must be between 1 and 100 characters") 100

  abbrev pub nickname : Option Bytes → Result (Option Bytes)
  nickname = trimmed_pointer (sentinel "nickname must be between 1 and 32 characters") 32

  abbrev pub display_name : Option Bytes → Result (Unit {0})
  display_name = between (sentinel "display name must be between 1 and 32 characters") 32

  abbrev pub pronouns : Option Bytes → Result (Unit {0})
  pronouns = between (sentinel "pronouns must be between 1 and 40 characters") 40

  abbrev pub about : Option Bytes → Result (Unit {0})
  about = between (sentinel "about must be between 1 and 190 characters") 190

  unfoldable pub content_checked : ℕ → Bytes → Result Bytes
  content_checked max_length [] = err (sentinel "message content must not be empty")
  content_checked max_length (b ∷ t) =
      if ltb max_length (rune_count (b ∷ t))
      then err (sentinel "message content exceeds the maximum length")
      else ok (b ∷ t)

  unfoldable pub message_content : Bytes → ℕ → Result Bytes
  message_content content max_length = content_checked max_length (trim_space content)
