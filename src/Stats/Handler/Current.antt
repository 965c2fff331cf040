-- ===== src/Stats/Handler/Current.antt =====
-- Which handler has a name, by the handlers alone.
use mathlib.Core.Option
use gobetween.Base.{
  sym, ℕ, zero, suc, ◌+◌, ◌≤◌, ◌==◌, ◌≡◌, refl, ap, ◌∙◌, String, true, Option, none, some, List, [],
  ◌∷◌, ◌++◌, if◌then◌else◌, length, get_elem?, arith, ◌=s◌, eq_iff, Bool-cases, Option-cases, inl,
  inr,
}
use gobetween.Base.Dict.{Dict, find, find-set, find-erase}
use gobetween.Stats.Handler.{
  no_stats, Stats, traffic, connections, backends, server_stats, Handler, Store, Event, stop,
  Action, make, give, change_at, apply_event, is_handler, unregister, take_event, new_handler, run,
  get_stats,
}

or_else : Option (ℕ × Handler) → Option (ℕ × Handler) → Option (ℕ × Handler)
or_else none o = o
or_else (some e) o = some e

-- The last handler of a name, with its number; those of the list are numbered from `k`.
unfoldable pub last_named : ℕ → String → List Handler → Option (ℕ × Handler)
unfolding or_else
last_named k name [] = none
last_named k name (h ∷ hs) =
    or_else (last_named (suc k) name hs) (if h.name =s name then some (k, h) else none)

if_running : Option (ℕ × Handler) → Option ℕ
if_running none = none
if_running (some (i, h)) = if h.is_running then some i else none

-- The handler that `GetStats` is to find: the newest of the name, unless it is stopped.
pub current : String → List Handler → Option ℕ
unfolding if_running last_named
current name heap = if_running (last_named 0 name heap)

pub IsCurrent : Store → Type 0
IsCurrent store = (name : String) → find name store.handlers ≡ current name store.heap

last_named-ge :
    (k : ℕ) (name : String) (hs : List Handler) (j : ℕ) (h : Handler)
    → last_named k name hs ≡ some (j, h)
    → k ≤ j
unfolding last_named or_else
last_named-ge k name [] j h e = absurd (ground arith)
last_named-ge k name (x ∷ hs) j h e = elim (Option-cases (last_named (suc k) name hs)) [
  | inl p ↦ ground arith
  | inr ((i, y), p) ↦ ground (arith, last_named-ge (suc k) name hs i y p)
]

last_named-append :
    (k : ℕ) (name : String) (hs : List Handler) (h : Handler)
    → last_named k name (hs ++ h ∷ [])
      ≡ (if h.name =s name then some (k + length hs, h) else last_named k name hs)
unfolding last_named or_else
last_named-append k name [] h = ground arith
last_named-append k name (x ∷ hs) h = elim (Bool-cases (h.name =s name)) [
  | inl t ↦ rw (last_named-append (suc k) name hs h, t) (ground arith)
  | inr f ↦ rw (last_named-append (suc k) name hs h, f) refl
]

at : ℕ → (Handler → Handler) → ℕ × Handler → ℕ × Handler
at i f (j, h) = (j, if j == i then f h else h)

-- A change of one handler that keeps its name.
last_named-change_at :
    (k i : ℕ) (name : String) (hs : List Handler) (f : Handler → Handler)
    → ((h : Handler) → (f h).name ≡ h.name)
    → last_named k name (change_at f hs i) ≡ Option.map (at (k + i) f) (last_named k name hs)
unfolding last_named or_else change_at at
last_named-change_at k i name [] f same = refl
last_named-change_at k zero name (h ∷ hs) f same =
    elim (Option-cases (last_named (suc k) name hs)) [
      | inl p ↦ rw p (ground (arith, same h))
      | inr ((j, y), p) ↦ rw p (ground (arith, last_named-ge (suc k) name hs j y p))
    ]
last_named-change_at k (suc i) name (h ∷ hs) f same =
    rw (last_named-change_at (suc k) i name hs f same)
      (elim (Option-cases (last_named (suc k) name hs)) [
        | inl p ↦ rw p (ground arith)
        | inr ((j, y), p) ↦ rw p (ground arith)
      ])

apply_event-name : (e : Event) (h : Handler) → (apply_event e h).name ≡ h.name
unfolding apply_event
apply_event-name stop h = refl
apply_event-name (server_stats b) h = refl
apply_event-name (backends bs) h = refl
apply_event-name (connections n) h = refl
apply_event-name (traffic rwc) h = refl

last_named-found :
    (k : ℕ) (name : String) (hs : List Handler) (j : ℕ) (y : Handler)
    → last_named k name hs ≡ some (j, y)
    → (i : ℕ) × (j ≡ k + i) × (get_elem? hs i ≡ some y) × (y.name ≡ name)
unfolding last_named or_else
last_named-found k name [] j y e = absurd (ground arith)
last_named-found k name (x ∷ hs) j y e = elim (Option-cases (last_named (suc k) name hs)) [
  | inl p ↦ elim (Bool-cases (x.name =s name)) [
    | inl t ↦ (0, ground arith, ap some (ground arith), ground (arith, eq_iff x.name name))
    | inr f ↦ absurd (ground arith)
  ]
  | inr ((i, z), p) ↦
      let (n, q, g, same) = last_named-found (suc k) name hs j y (ground arith) in
      (suc n, omega (arith, q), g, same)
]

-- A stop of the handler that is registered, and of one that is not.
stop-current :
    (i : ℕ) (h : Handler) (heap : List Handler) (m : Dict ℕ) (name : String)
    → get_elem? heap i ≡ some h
    → h.is_running ≡ true
    → find name m ≡ current name heap
    → find name (unregister i h.name stop m) ≡ current name (change_at (apply_event stop) heap i)
unfolding current if_running unregister is_handler apply_event at
stop-current i h heap m name e r c =
    rw (last_named-change_at 0 i name heap (apply_event stop) (apply_event-name stop))
      (elim (Option-cases (last_named 0 name heap)) [
        | inl p ↦ rw p (ground (arith, find-erase h.name name m))
        | inr ((j, y), p) ↦
            let (n, q, g, same) = last_named-found 0 name heap j y p in
            let now : find name m ≡ (if y.is_running then some j else none) = c ∙ rw p refl in
            rw p (elim (Bool-cases (j == i)) [
              | inl t ↦
                  let n_is_i : n ≡ i = ground arith in
                  let y_is_h : y ≡ h = ground arith in
                  ground (arith, find-erase name name m, eq_iff name name)
              | inr f ↦ ground (arith, find-erase h.name name m, eq_iff h.name name)
            ])
      ])

make-IsCurrent :
    (name : String) (store : Store) → IsCurrent store → IsCurrent (new_handler name store).1
unfolding new_handler current if_running IsCurrent
make-IsCurrent name store h n = rw (find-set name n (length store.heap) store.handlers) (
    rw
      (last_named-append 0 n store.heap
        (record { name = name; latest_stats = no_stats; is_running = true }))
      (elim (Bool-cases (name =s n)) [ inl t ↦ rw t (ap some (omega arith)) | inr f ↦ rw f (h n) ]))

-- A change_at that stops nothing.
quiet_current :
    (i : ℕ) (heap : List Handler) (name : String) (f : Handler → Handler)
    → ((h : Handler) → (f h).name ≡ h.name)
    → ((h : Handler) → (f h).is_running ≡ h.is_running)
    → current name (change_at f heap i) ≡ current name heap
unfolding current if_running at
quiet_current i heap name f same running =
    rw (last_named-change_at 0 i name heap f same) (elim (Option-cases (last_named 0 name heap)) [
      | inl p ↦ rw p refl
      | inr ((j, y), p) ↦ rw p (ground (arith, running y))
    ])

event-current :
    (i : ℕ) (e : Event) (h : Handler) (store : Store) (name : String)
    → get_elem? store.heap i ≡ some h
    → h.is_running ≡ true
    → find name store.handlers ≡ current name store.heap
    → find name (unregister i h.name e store.handlers)
      ≡ current name (change_at (apply_event e) store.heap i)
unfolding unregister apply_event
event-current i stop h store name e r c = stop-current i h store.heap store.handlers name e r c
event-current i (server_stats b) h store name e r c =
    c ∙ sym (quiet_current i store.heap name _ (λ x. refl) (λ x. refl))
event-current i (backends bs) h store name e r c =
    c ∙ sym (quiet_current i store.heap name _ (λ x. refl) (λ x. refl))
event-current i (connections k) h store name e r c =
    c ∙ sym (quiet_current i store.heap name _ (λ x. refl) (λ x. refl))
event-current i (traffic rwc) h store name e r c =
    c ∙ sym (quiet_current i store.heap name _ (λ x. refl) (λ x. refl))

take_event-IsCurrent :
    (i : ℕ) (e : Event) (store : Store) → IsCurrent store → IsCurrent (take_event i e store).0
unfolding take_event IsCurrent
take_event-IsCurrent i e store c n = elim (Option-cases (get_elem? store.heap i)) [
  | inl p ↦ rw (p, take_event) (c n)
  | inr (h, p) ↦
      rw (p, take_event)
        (elim (Bool-cases h.is_running) [
          | inl t ↦ rw t (event-current i e h store n p t (c n))
          | inr f ↦ rw f (c n)
        ])
]

run-IsCurrent : (acts : List Action) (store : Store) → IsCurrent store → IsCurrent (run acts store)
unfolding run
run-IsCurrent [] store h = h
run-IsCurrent (make name ∷ rest) store h = run-IsCurrent rest _ (make-IsCurrent name store h)
run-IsCurrent (give i e ∷ rest) store h = run-IsCurrent rest _ (take_event-IsCurrent i e store h)

abbrev pub empty : Store
empty = record { heap = []; handlers = [] }

abbrev pub stats_of : Option (ℕ × Handler) → Option Stats
stats_of none = none
stats_of (some (i, h)) = if h.is_running then some h.latest_stats else none

empty-IsCurrent : IsCurrent empty
unfolding IsCurrent current last_named if_running find
empty-IsCurrent n = refl

stats_at : List Handler → Option ℕ → Option Stats
stats_at heap none = none
stats_at heap (some i) = Option.map (λ h. h.latest_stats) (get_elem? heap i)

get_stats_at :
    (name : String) (store : Store)
    → get_stats name store ≡ stats_at store.heap (find name store.handlers)
unfolding get_stats stats_at
get_stats_at name store = elim (Option-cases (find name store.handlers)) [
  | inl p ↦ rw (p, get_stats) refl
  | inr (i, p) ↦ rw (p, get_stats) refl
]

stats_at-current :
    (name : String) (heap : List Handler)
    → stats_at heap (current name heap) ≡ stats_of (last_named 0 name heap)
unfolding stats_at current if_running
stats_at-current name heap = elim (Option-cases (last_named 0 name heap)) [
  | inl p ↦ rw p refl
  | inr ((i, h), p) ↦
      let (n, q, g, same) = last_named-found 0 name heap i h p in
      let found : get_elem? heap i ≡ some h = ground arith in
      rw p (elim (Bool-cases h.is_running) [ inl t ↦ rw t (rw found refl) | inr f ↦ rw f refl ])
]

-- After every sequence of new handlers and of events of them, GetStats of a name gives the
-- statistics of the handler made last under the name, unless that one is stopped; a stop of an
-- older one takes nothing away.
pub run-get_stats :
    (acts : List Action) (name : String)
    → get_stats name (run acts empty) ≡ stats_of (last_named 0 name (run acts empty).heap)
unfolding IsCurrent
run-get_stats acts name =
    get_stats_at name (run acts empty)
    ∙ ap (stats_at (run acts empty).heap) (run-IsCurrent acts empty empty-IsCurrent name)
    ∙ stats_at-current name (run acts empty).heap
