-- ===== src/Registry/Liveness.antt =====
-- A box is online exactly while the newest of its sockets has not been closed.
use magnemite.Prelude.{
  ℕ, ◌==◌, ◌≡◌, ◌∙◌, ap, refl, inl, inr, Bool-cases, Option-cases, if◌then◌else◌, Bool, true, false,
  not, Option, none, some, is_some, List, [], ◌∷◌, any, arith, ==_iff, ◌⊎◌, subst,
}
use magnemite.Registry.{
  Connection, Connections, get_connection, delete, put, register, unregister, is_online,
}

-- What the sockets tell the registry.
pub data SocketEvent : Type 0 where
  opened : (device_id socket : ℕ) → SocketEvent
  closed : (device_id socket : ℕ) → SocketEvent

abbrev pub after : SocketEvent → Connections → Connections
after (opened d s) cs = (register (record { device_id = d; socket = s }) cs).0
after (closed d s) cs = unregister d s cs

-- The registry after some events, the newest first.
unfoldable pub connections_after : List SocketEvent → Connections
connections_after [] = []
connections_after (e ∷ older) = after e (connections_after older)

-- Whether the newest socket that the device opened is none of those closed since.
unfoldable pub is_live : ℕ → (closed_since : List ℕ) → List SocketEvent → Bool
is_live d gone [] = false
is_live d gone (opened e s ∷ older) =
    let rest = is_live d gone older in if e == d then not (any (λ t. t == s) gone) else rest
is_live d gone (closed e s ∷ older) =
    let since = is_live d (s ∷ gone) older in
    let rest = is_live d gone older in if e == d then since else rest

abbrev still_open : List ℕ → Option Connection → Bool
still_open gone none = false
still_open gone (some c) = not (any (λ t. t == c.socket) gone)

get-put :
    (d : ℕ) (c : Connection) (cs : Connections)
    → get_connection d (put c cs) ≡ (if c.device_id == d then some c else get_connection d cs)
unfolding get_connection put
get-put d c [] = refl
get-put d c (x ∷ cs) = ground (arith, get-put d c cs)

get-delete :
    (d e : ℕ) (cs : Connections)
    → get_connection d (delete e cs) ≡ (if e == d then none else get_connection d cs)
unfolding get_connection delete
get-delete d e [] = ground arith
get-delete d e (x ∷ cs) = ground (arith, get-delete d e cs)

get-unregister :
    (d e s : ℕ) (cs : Connections) (gone : List ℕ)
    → still_open gone (get_connection d (unregister e s cs)) ≡ (
        if e == d
        then still_open (s ∷ gone) (get_connection d cs)
        else still_open gone (get_connection d cs))
unfolding unregister
get-unregister d e s cs gone = elim (Option-cases (get_connection e cs)) [
  | inl n ↦ rw (n, unregister) (absent (e == d) (get_connection d cs) (same_key n))
  | inr (old, f) ↦
      rw (f, unregister)
        (elim (Bool-cases (old.socket == s)) [
          | inl y ↦ rw y (
              ap (still_open gone) (get-delete d e cs)
              ∙ deleted (e == d) (get_connection d cs) old y (same_key f))
          | inr m ↦ rw m (kept (e == d) (get_connection d cs) old m (same_key f))
        ])
]
  where
    same_key :
        {o : Option Connection}
        → get_connection e cs ≡ o
        → ((e == d) ≡ false) ⊎ (get_connection d cs ≡ o)
    same_key {o} f = elim (Bool-cases (e == d)) [
      | inl hit ↦ inr (subst (λ i. get_connection i cs ≡ o) ((==_iff e d).0 hit) f)
      | inr miss ↦ inl miss
    ]

    absent :
        (b : Bool) (o : Option Connection)
        → (b ≡ false) ⊎ (o ≡ none)
        → still_open gone o ≡ (if b then still_open (s ∷ gone) o else still_open gone o)
    absent b o h = ground arith

    deleted :
        (b : Bool) (o : Option Connection) (old : Connection)
        → (old.socket == s) ≡ true
        → (b ≡ false) ⊎ (o ≡ some old)
        → still_open gone (if b then none else o)
          ≡ (if b then still_open (s ∷ gone) o else still_open gone o)
    deleted b o old y h = ground arith

    kept :
        (b : Bool) (o : Option Connection) (old : Connection)
        → (old.socket == s) ≡ false
        → (b ≡ false) ⊎ (o ≡ some old)
        → still_open gone o ≡ (if b then still_open (s ∷ gone) o else still_open gone o)
    kept b o old m h = ground arith

if_cong : (b : Bool) {x y u v : Bool} → x ≡ u → y ≡ v → (if b then x else y) ≡ (if b then u else v)
if_cong true e f = e
if_cong false e f = f

still_if :
    (gone : List ℕ) (b : Bool) (x y : Option Connection)
    → still_open gone (if b then x else y) ≡ (if b then still_open gone x else still_open gone y)
still_if gone true x y = refl
still_if gone false x y = refl

is_live_lem :
    (d : ℕ) (gone : List ℕ) (es : List SocketEvent)
    → still_open gone (get_connection d (connections_after es)) ≡ is_live d gone es
unfolding connections_after is_live register
is_live_lem d gone [] = refl
is_live_lem d gone (opened e s ∷ older) =
    let cs = connections_after older in
    let c : Connection = record { device_id = e; socket = s } in
    ap (still_open gone) (get-put d c cs)
    ∙ still_if gone (e == d) (some c) (get_connection d cs)
    ∙ if_cong (e == d) refl (is_live_lem d gone older)
is_live_lem d gone (closed e s ∷ older) =
    get-unregister d e s (connections_after older) gone
    ∙ if_cong (e == d) (is_live_lem d (s ∷ gone) older) (is_live_lem d gone older)

-- However the sockets of the boxes open and close, and however late a replaced socket closes, a
-- box is online exactly if the newest socket that it opened has not been closed since.
pub is_online_lem :
    (d : ℕ) (es : List SocketEvent) → is_online d (connections_after es) ≡ is_live d [] es
unfolding is_online
is_online_lem d es = still (get_connection d (connections_after es)) ∙ is_live_lem d [] es
  where
    still : (o : Option Connection) → is_some o ≡ still_open [] o
    still none = refl
    still (some c) = refl
