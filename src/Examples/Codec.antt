-- ===== src/Examples/Codec.antt =====
-- A codec for sessions and replay entries: numbers one after the other, and a mark before each part.
use Prim.Native.Nat.{Ordering, compare}
use Prim.Native.Char.{Char, char, code, IsLt, IsScalar}
use Prim.Native.String.{String}
use uncord_server.Prelude.{
  ℕ, zero, suc, ◌≡◌, refl, ap, true, false, Option, none, some, List, [], ◌∷◌, Bytes, Result, ok,
  err, malformed, length,
}
use uncord_server.Json.{Scalar, null, bool, num, str, nested, Document, garbage, object}
use uncord_server.Gateway.Frame.{
  Frame, hello, heartbeat_ack, reconnect, dispatch, ephemeral, invalid_session,
}
use uncord_server.Gateway.Session.{SessionData, ReplayEntry, Codec}

abbrev BothLt : Ordering → Ordering → Type 0
BothLt Ordering.lt o = IsLt o
BothLt Ordering.eq _ = ⊥
BothLt Ordering.gt _ = ⊥

abbrev IsOneOf : Ordering → Ordering → Ordering → Type 0
IsOneOf Ordering.lt _ _ = Unit
IsOneOf Ordering.eq o p = BothLt o p
IsOneOf Ordering.gt o p = BothLt o p

abbrev find_lt : (o : Ordering) → Option (IsLt o)
find_lt Ordering.lt = some tt
find_lt Ordering.eq = none
find_lt Ordering.gt = none

abbrev find_both : (o p : Ordering) → Option (BothLt o p)
find_both Ordering.lt p = find_lt p
find_both Ordering.eq p = none
find_both Ordering.gt p = none

abbrev find_scalar : (o p q : Ordering) → Option (IsOneOf o p q)
find_scalar Ordering.lt p q = some tt
find_scalar Ordering.eq p q = find_both p q
find_scalar Ordering.gt p q = find_both p q

find_lt_complete : (o : Ordering) (h : IsLt o) → find_lt o ≡ some h
find_lt_complete Ordering.lt h = refl
find_lt_complete Ordering.eq h = absurd h
find_lt_complete Ordering.gt h = absurd h

find_both_complete : (o p : Ordering) (h : BothLt o p) → find_both o p ≡ some h
find_both_complete Ordering.lt p h = find_lt_complete p h
find_both_complete Ordering.eq p h = absurd h
find_both_complete Ordering.gt p h = absurd h

find_scalar_complete : (o p q : Ordering) (h : IsOneOf o p q) → find_scalar o p q ≡ some h
find_scalar_complete Ordering.lt p q h = refl
find_scalar_complete Ordering.eq p q h = find_both_complete p q h
find_scalar_complete Ordering.gt p q h = find_both_complete p q h

-- What a parser finds, and the numbers after it.
abbrev Parsed : Type 0 → Type 0
Parsed A = Option (A × List ℕ)

abbrev and_then : {A B : Type 0} → Parsed A → (A → List ℕ → Parsed B) → Parsed B
and_then none k = none
and_then (some (a, r)) k = k a r

abbrev made : (n : ℕ) → Option (IsScalar n) → Option Char
made n none = none
made n (some h) = some (char n h)

abbrev char_of : ℕ → Option Char
char_of n = made n (find_scalar (compare n 55296) (compare 57343 n) (compare n 1114112))

char_of-code : (c : Char) → char_of (code c) ≡ some c
char_of-code (char n h) =
    ap (made n) (find_scalar_complete (compare n 55296) (compare 57343 n) (compare n 1114112) h)

abbrev put_string : String → List ℕ → List ℕ
put_string String.[] r = 0 ∷ r
put_string (String.◌∷◌ c s) r = 1 ∷ (code c ∷ put_string s r)

abbrev prefix : Option Char → Parsed String → Parsed String
prefix none p = none
prefix (some c) none = none
prefix (some c) (some (s, r)) = some ((String.◌∷◌ c s), r)

abbrev get_string : List ℕ → Parsed String
get_string [] = none
get_string (zero ∷ r) = some (String.[], r)
get_string (suc _ ∷ []) = none
get_string (suc _ ∷ (n ∷ r)) = prefix (char_of n) (get_string r)

get_string-put : (s : String) (r : List ℕ) → get_string (put_string s r) ≡ some (s, r)
get_string-put String.[] r = refl
get_string-put (String.◌∷◌ c s) r = rw (char_of-code c, get_string-put s r) refl

abbrev put_bytes : Bytes → List ℕ → List ℕ
put_bytes [] r = 0 ∷ r
put_bytes (b ∷ bs) r = 1 ∷ (b ∷ put_bytes bs r)

abbrev more : ℕ → Parsed Bytes → Parsed Bytes
more b none = none
more b (some (bs, r)) = some (b ∷ bs, r)

abbrev get_bytes : List ℕ → Parsed Bytes
get_bytes [] = none
get_bytes (zero ∷ r) = some ([], r)
get_bytes (suc _ ∷ []) = none
get_bytes (suc _ ∷ (b ∷ r)) = more b (get_bytes r)

get_bytes-put : (b : Bytes) (r : List ℕ) → get_bytes (put_bytes b r) ≡ some (b, r)
get_bytes-put [] r = refl
get_bytes-put (b ∷ bs) r = ap (more b) (get_bytes-put bs r)

abbrev put_scalar : Scalar → List ℕ → List ℕ
put_scalar null r = 0 ∷ r
put_scalar (bool false) r = 1 ∷ r
put_scalar (bool true) r = 2 ∷ r
put_scalar (num n) r = 3 ∷ (n ∷ r)
put_scalar nested r = 4 ∷ r
put_scalar (str t) r = 5 ∷ put_bytes t r

abbrev get_scalar : List ℕ → Parsed Scalar
get_scalar [] = none
get_scalar (zero ∷ r) = some (null, r)
get_scalar ((suc zero) ∷ r) = some (bool false, r)
get_scalar ((suc (suc zero)) ∷ r) = some (bool true, r)
get_scalar ((suc (suc (suc zero))) ∷ []) = none
get_scalar ((suc (suc (suc zero))) ∷ (n ∷ r)) = some (num n, r)
get_scalar ((suc (suc (suc (suc zero)))) ∷ r) = some (nested, r)
get_scalar (suc (suc (suc (suc (suc _)))) ∷ r) = and_then (get_bytes r) (λ t r'. some (str t, r'))

get_scalar-put : (x : Scalar) (r : List ℕ) → get_scalar (put_scalar x r) ≡ some (x, r)
get_scalar-put null r = refl
get_scalar-put (bool false) r = refl
get_scalar-put (bool true) r = refl
get_scalar-put (num n) r = refl
get_scalar-put nested r = refl
get_scalar-put (str t) r = rw (get_bytes-put t r) refl

abbrev put_fields : List (String × Scalar) → List ℕ → List ℕ
put_fields [] r = r
put_fields ((key, x) ∷ fields) r = put_string key (put_scalar x (put_fields fields r))

abbrev get_fields : ℕ → List ℕ → Parsed (List (String × Scalar))
get_fields zero r = some ([], r)
get_fields (suc n) r = and_then (get_string r) (λ key r1.
    and_then (get_scalar r1)
      (λ x r2. and_then (get_fields n r2) (λ fields r3. some ((key, x) ∷ fields, r3))))

get_fields-put :
    (fields : List (String × Scalar)) (r : List ℕ)
    → get_fields (length fields) (put_fields fields r) ≡ some (fields, r)
get_fields-put [] r = refl
get_fields-put ((key, x) ∷ fields) r =
    rw
      (
        get_string-put key (put_scalar x (put_fields fields r)),
        get_scalar-put x (put_fields fields r),
        get_fields-put fields r,
      )
      refl

abbrev put_document : Document → List ℕ → List ℕ
put_document garbage r = 0 ∷ r
put_document (object fields) r = 1 ∷ (length fields ∷ put_fields fields r)

abbrev get_document : List ℕ → Parsed Document
get_document [] = none
get_document (zero ∷ r) = some (garbage, r)
get_document (suc _ ∷ []) = none
get_document (suc _ ∷ (n ∷ r)) = and_then (get_fields n r) (λ fields r'. some (object fields, r'))

get_document-put : (d : Document) (r : List ℕ) → get_document (put_document d r) ≡ some (d, r)
get_document-put garbage r = refl
get_document-put (object fields) r = rw (get_fields-put fields r) refl

abbrev put_frame : Frame → List ℕ
put_frame (hello n) = 0 ∷ (n ∷ [])
put_frame heartbeat_ack = 1 ∷ []
put_frame reconnect = 2 ∷ []
put_frame (invalid_session false) = 3 ∷ []
put_frame (invalid_session true) = 4 ∷ []
put_frame (ephemeral event d) = 5 ∷ put_bytes event (put_document d [])
put_frame (dispatch n event d) = 6 ∷ (n ∷ put_bytes event (put_document d []))

abbrev and_value : {A : Type 0} → Parsed A → Option A
and_value none = none
and_value (some (a, _)) = some a

abbrev get_event : {A : Type 0} → (Bytes → Document → A) → List ℕ → Option A
get_event make r = and_value (
    and_then (get_bytes r)
      (λ event r1. and_then (get_document r1) (λ d r2. some (make event d, r2))))

get_event-put :
    {A : Type 0} (make : Bytes → Document → A) (event : Bytes) (d : Document)
    → get_event make (put_bytes event (put_document d [])) ≡ some (make event d)
get_event-put make event d =
    rw (get_bytes-put event (put_document d []), get_document-put d []) refl

abbrev get_frame : List ℕ → Option Frame
get_frame [] = none
get_frame (zero ∷ []) = none
get_frame (zero ∷ (n ∷ r)) = some (hello n)
get_frame ((suc zero) ∷ r) = some heartbeat_ack
get_frame ((suc (suc zero)) ∷ r) = some reconnect
get_frame ((suc (suc (suc zero))) ∷ r) = some (invalid_session false)
get_frame ((suc (suc (suc (suc zero)))) ∷ r) = some (invalid_session true)
get_frame ((suc (suc (suc (suc (suc zero))))) ∷ r) = get_event ephemeral r
get_frame (suc (suc (suc (suc (suc (suc _))))) ∷ []) = none
get_frame (suc (suc (suc (suc (suc (suc _))))) ∷ (n ∷ r)) = get_event (dispatch n) r

pub get_frame-put : (f : Frame) → get_frame (put_frame f) ≡ some f
get_frame-put (hello n) = refl
get_frame-put heartbeat_ack = refl
get_frame-put reconnect = refl
get_frame-put (invalid_session false) = refl
get_frame-put (invalid_session true) = refl
get_frame-put (ephemeral event d) = get_event-put ephemeral event d
get_frame-put (dispatch n event d) = get_event-put (dispatch n) event d

abbrev entry_of : ℕ → Option Frame → Option ReplayEntry
entry_of n none = none
entry_of n (some f) = some (record { seq = n; payload = f })

abbrev read_entry : Bytes → Option ReplayEntry
read_entry [] = none
read_entry (n ∷ r) = entry_of n (get_frame r)

abbrev read_session : Bytes → Result SessionData
read_session (n ∷ (t ∷ user)) = ok (record { user_id = user; last_seq = n; disconnected_at = t })
read_session (n ∷ []) = err malformed
read_session [] = err malformed

abbrev pub codec : Codec
codec = record {
  write_session = λ d. d.last_seq ∷ (d.disconnected_at ∷ d.user_id);
  read_session = read_session;
  write_entry = λ e. e.seq ∷ put_frame e.payload;
  read_entry = read_entry;
  read_session-write_session = λ d. refl;
  read_entry-write_entry = λ e. ap (entry_of e.seq) (get_frame-put e.payload);
}
