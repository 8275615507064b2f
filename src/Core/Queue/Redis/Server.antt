-- ===== src/Core/Queue/Redis/Server.antt =====
-- A Redis server in memory, whose commands never fail, and a codec that keeps the message as it
-- is; they have the laws that `RedisClient` and `Codec` ask for.
use scraper_v_hezzian.Core.Queue.Redis.{remove_first, RedisClient, Codec}
use scraper_v_hezzian.Prelude.Dict
use scraper_v_hezzian.Prelude.Dict.{get-put, Dict}
use scraper_v_hezzian.Prelude.{
  string_eq, nat_eq, Eq, ℕ, ◌≡◌, ◌↔◌, String, Bool, Option, none, some, ◌==◌, ◌&&◌, List, [], ◌∷◌,
  ◌++◌, true, if◌then◌else◌, length, refl, ap, ◌∙◌, subst, false, arith, eq_iff, sym, some_inj,
}
use scraper_v_hezzian.Core.Queue.{Message}

abbrev pub same_message : Message ℕ → Message ℕ → Bool
same_message a b =
    (a.id == b.id)
    && ((a.queue == b.queue) && ((a.payload == b.payload) && (a.attempts == b.attempts)))

alike : (a b : Message ℕ) → same_message a b ≡ true → a ≡ b
alike a b h =
    let i : a.id ≡ b.id = ground (arith, eq_iff a.id b.id) in
    let q : a.queue ≡ b.queue = ground (arith, eq_iff a.queue b.queue) in
    let p : a.payload ≡ b.payload = ground arith in
    let n : a.attempts ≡ b.attempts = ground arith in
    ap (λ x. record a { id = x }) i
    ∙ ap (λ x. record a { id = b.id; queue = x }) q
    ∙ ap (λ x. record a { id = b.id; queue = b.queue; payload = x }) p
    ∙ ap (λ x. record a { id = b.id; queue = b.queue; payload = b.payload; attempts = x }) n

itself : (a : Message ℕ) → same_message a a ≡ true
itself a = ground (arith, eq_iff a.id a.id, eq_iff a.queue a.queue)

pub same_iff : (a b : Message ℕ) → (same_message a b ≡ true) ↔ (a ≡ b)
same_iff a b = (alike a b, λ h. subst (λ c. same_message a c ≡ true) h (itself a))

instance abbrev pub message_eq : Eq (Message ℕ)
message_eq = record { beq = same_message; beq_iff = same_iff }

abbrev pub Lists : Type 0
Lists = Dict String (List (Message ℕ))

abbrev pub entries_of : Lists → String → List (Message ℕ)
entries_of db k = Dict.get_or db k []

abbrev pub moved : String → String → Lists → List (Message ℕ) → Option (Message ℕ) × Lists
moved src dst db [] = (none, db)
moved src dst db (v ∷ vs) =
    let db' = Dict.put db src vs in (some v, Dict.put db' dst (entries_of db' dst ++ v ∷ []))

get_or-put :
    (db : Lists) (k : String) (v : List (Message ℕ)) (j : String)
    → entries_of (Dict.put db k v) j ≡ (if k == j then v else entries_of db j)
unfolding Dict.get_or
get_or-put db k v j = ground (arith, get-put db k v j)

abbrev pub pushed : Bool → String → Message ℕ → Lists → Option Lists
pushed true name v db = none
pushed false name v db = some (Dict.put db name (entries_of db name ++ v ∷ []))

pub pushed-items :
    (b : Bool) (name : String) (v : Message ℕ) (db db' : Lists) (k : String)
    → pushed b name v db ≡ some db'
    → entries_of db' k ≡ (if name == k then entries_of db k ++ v ∷ [] else entries_of db k)
pushed-items true name v db db' k h = absurd (ground arith)
pushed-items false name v db db' k h =
    ap (λ d. entries_of d k) (sym (some_inj _ _ h))
    ∙ ground (arith, get_or-put db name (entries_of db name ++ v ∷ []) k, eq_iff name k)

pub moved-nil :
    (src dst : String) (db db' : Lists) (k : String)
    → entries_of db src ≡ []
    → (r : Option (Message ℕ)) → some (moved src dst db (entries_of db src)) ≡ some (r, db')
    → (r ≡ none) × (entries_of db' k ≡ entries_of db k)
moved-nil src dst db db' k e r h =
    let e' : moved src dst db (entries_of db src) ≡ (r, db') = some_inj _ _ h in
    let e0 : (none, db) ≡ (r, db') = sym (ap (moved src dst db) e) ∙ e' in
    (sym (ap (λ x. x.0) e0), sym (ap (λ x. entries_of x.1 k) e0))

moved-cons :
    (src dst : String) (db : Lists) (k : String) (v : Message ℕ) (vs : List (Message ℕ))
    → ¬ (src ≡ dst)
    → entries_of (moved src dst db (v ∷ vs)).1 k
      ≡ (if src == k then vs else if dst == k then entries_of db k ++ v ∷ [] else entries_of db k)
moved-cons src dst db k v vs ne =
    let db1 = Dict.put db src vs in
    ground (
      arith,
      get_or-put db1 dst (entries_of db1 dst ++ v ∷ []) k,
      get_or-put db src vs dst,
      get_or-put db src vs k,
      eq_iff src k,
      eq_iff dst k,
      eq_iff src dst,
    )

pub moved-items :
    (src dst : String) (db db' : Lists) (k : String) (v : Message ℕ) (vs : List (Message ℕ))
    → ¬ (src ≡ dst)
    → entries_of db src ≡ v ∷ vs
    → (r : Option (Message ℕ)) → some (moved src dst db (entries_of db src)) ≡ some (r, db')
    → (r ≡ some v)
      × (entries_of db' k ≡ (
          if src == k then vs else if dst == k then entries_of db k ++ v ∷ [] else entries_of db k))
moved-items src dst db db' k v vs ne e r h =
    let e' : moved src dst db (entries_of db src) ≡ (r, db') = some_inj _ _ h in
    let e0 : moved src dst db (v ∷ vs) ≡ (r, db') = sym (ap (moved src dst db) e) ∙ e' in
    (sym (ap (λ x. x.0) e0), sym (ap (λ x. entries_of x.1 k) e0) ∙ moved-cons src dst db k v vs ne)

pub removed-items :
    (name : String) (v : Message ℕ) (db db' : Lists) (k : String)
    → some (Dict.put db name (remove_first v (entries_of db name))) ≡ some db'
    → entries_of db' k ≡ (if name == k then remove_first v (entries_of db k) else entries_of db k)
removed-items name v db db' k h =
    ap (λ d. entries_of d k) (sym (some_inj _ _ h))
    ∙ ground (arith, get_or-put db name (remove_first v (entries_of db name)) k, eq_iff name k)

-- A push to a list for which `fails` says so raises.
abbrev pub server : (String → Bool) → RedisClient (Message ℕ)
server fails = record {
  Db = Lists;
  items = entries_of;
  rpush = λ name v db. pushed (fails name) name v db;
  lmove = λ src dst db. some (moved src dst db (entries_of db src));
  lrem = λ name v db. some (Dict.put db name (remove_first v (entries_of db name)));
  llen = λ name db. some (length (entries_of db name));
  rpush_items = λ name v db db' k h. pushed-items (fails name) name v db db' k h;
  lmove_none = λ src dst db db' k e r h. moved-nil src dst db db' k e r h;
  lmove_items = λ src dst db db' k v vs ne e r h. moved-items src dst db db' k v vs ne e r h;
  lrem_items = λ name v db db' k h. removed-items name v db db' k h;
  llen_items = λ name db n h. sym (some_inj _ _ h);
}

abbrev pub plain : Codec ℕ (Message ℕ)
plain = record {
  encode = λ m. m;
  decode = λ raw. raw;
  encode_dead = λ m error. m;
  decode-encode = λ m. refl;
}
