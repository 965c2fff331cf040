-- ===== src/Tcp/Server/Closing.antt =====
-- No connection that the loop is given stays open.
use gobetween.Base.{
  String, ◌≡◌, refl, sym, ap, ◌∙◌, ◌⊎◌, inl, inr, true, false, List, [], ◌∷◌, ◌++◌, map, Member,
  Member-append_right, All, Bool-cases, arith, eq_iff, ◌=s◌,
}
use gobetween.Base.Int.{ℤ}
use gobetween.Tcp.Clients.{
  Conn, Event, connect, disconnect, put, remove, too_many, handle_connect, handle_disconnect, step,
  close,
}
use gobetween.Tcp.Clients
use gobetween.Tcp.Server.{on_clients, event, stop, loop, stop_effects, close_all}

abbrev pub conn_of : Event → Conn
conn_of (connect c) = c
conn_of (disconnect c) = c

Member-append_left : {A : Type 0} (a : A) (xs ys : List A) → Member a xs → Member a (xs ++ ys)
Member-append_left a [] ys h = absurd h
Member-append_left a (x ∷ xs) ys (inl e) = inl e
Member-append_left a (x ∷ xs) ys (inr h) = inr (Member-append_left a xs ys h)

close_all-Member :
    (c : Conn) (m : List (String × Conn))
    → Member (c.remote, c) m
    → Member (on_clients (close c)) (close_all m)
unfolding close_all
close_all-Member c [] h = absurd h
close_all-Member c ((k, d) ∷ m) (inl e) = inl (ap (λ x. on_clients (close x)) (ap (λ x. x.1) e))
close_all-Member c ((k, d) ∷ m) (inr h) = inr (close_all-Member c m h)

-- The connections are told apart by the texts of their addresses.
module _ (P : Conn → Type 0) (one : (c d : Conn) → P c → P d → c.remote ≡ d.remote → c ≡ d) where
  put-keeps :
      (c d : Conn) (m : List (String × Conn))
      → P c
      → P d
      → Member (c.remote, c) m
      → Member (c.remote, c) (put d m)
  unfolding put
  put-keeps c d [] p q h = absurd h
  put-keeps c d ((k, w) ∷ m) p q (inr h) = elim (Bool-cases (k =s d.remote)) [
    | inl t ↦ rw t (inr h)
    | inr f ↦ rw f (inr (put-keeps c d m p q h))
  ]
  put-keeps c d ((k, w) ∷ m) p q (inl e) = elim (Bool-cases (k =s d.remote)) [
    | inl t ↦
        let here : c.remote ≡ k = ap (λ x. x.0) e in
        let same : c ≡ d = one c d p q (here ∙ (eq_iff k d.remote).0 t) in
        rw t (inl (ap (λ x. (c.remote, x)) same ∙ ap (λ x. (x, d)) here))
    | inr f ↦ rw f (inl e)
  ]

  put-has : (d : Conn) (m : List (String × Conn)) → Member (d.remote, d) (put d m)
  unfolding put
  put-has d [] = inl refl
  put-has d ((k, w) ∷ m) = elim (Bool-cases (k =s d.remote)) [
    | inl t ↦ rw t (inl (ap (λ x. (x, d)) (sym ((eq_iff k d.remote).0 t))))
    | inr f ↦ rw f (inr (put-has d m))
  ]

  remove-keeps :
      (c : Conn) (k : String) (m : List (String × Conn))
      → (c.remote =s k) ≡ false
      → Member (c.remote, c) m
      → Member (c.remote, c) (remove k m)
  unfolding remove
  remove-keeps c k [] f h = absurd h
  remove-keeps c k ((j, w) ∷ m) f (inl e) =
      let here : c.remote ≡ j = ap (λ x. x.0) e in
      let g : (j =s k) ≡ false = rw (← here) f in rw g (inl e)
  remove-keeps c k ((j, w) ∷ m) f (inr h) = elim (Bool-cases (j =s k)) [
    | inl t ↦ rw t (remove-keeps c k m f h)
    | inr g ↦ rw g (inr (remove-keeps c k m f h))
  ]

  -- Of a connection in the map, or of a new one: it is closed at once, or in the map after the step.
  IsSafe : Conn → List (String × Conn) × List gobetween.Tcp.Clients.Effect → Type 0
  IsSafe c r = Member (close c) r.1 ⊎ Member (c.remote, c) r.0

  step-IsSafe :
      (max : ℤ) (m : List (String × Conn)) (e : Event) (c : Conn)
      → P c
      → P (conn_of e)
      → (e ≡ connect c) ⊎ Member (c.remote, c) m
      → IsSafe c (step max m e)
  unfolding step handle_connect handle_disconnect IsSafe
  step-IsSafe max m (connect d) c p q h = elim (Bool-cases (too_many max m)) [
    | inl t ↦
        rw t (elim h [ inl e ↦ inl (inl (ap (λ x. close (conn_of x)) (sym e))) | inr k ↦ inr k ])
    | inr f ↦ rw f (
        inr (elim h [
          | inl e ↦ let same : c ≡ d = sym (ap conn_of e) in rw same (put-has d m)
          | inr k ↦ put-keeps c d m p q k
        ]))
  ]
  step-IsSafe max m (disconnect d) c p q (inl e) = absurd (ground arith)
  step-IsSafe max m (disconnect d) c p q (inr h) = elim (Bool-cases (c.remote =s d.remote)) [
    | inl t ↦ inl (inl (ap close (one c d p q ((eq_iff c.remote d.remote).0 t))))
    | inr f ↦ inr (remove-keeps c d.remote m f h)
  ]

  on_clients-Member :
      (c : Conn) (sent : List gobetween.Tcp.Clients.Effect)
      → Member (close c) sent
      → Member (on_clients (close c)) (map on_clients sent)
  on_clients-Member c [] h = absurd h
  on_clients-Member c (x ∷ sent) (inl e) = inl (ap on_clients e)
  on_clients-Member c (x ∷ sent) (inr h) = inr (on_clients-Member c sent h)

  loop-closes :
      (max : ℤ) (m : List (String × Conn)) (es : List Event) (c : Conn)
      → P c
      → All (λ e. P (conn_of e)) es
      → Member (connect c) es ⊎ Member (c.remote, c) m
      → Member (on_clients (close c)) (loop max true m (map event es ++ stop ∷ [])).1
  unfolding loop stop_effects IsSafe
  loop-closes max m [] c p q (inl h) = absurd h
  loop-closes max m [] c p q (inr h) = inr (inr (inr (close_all-Member c m h)))
  loop-closes max m (e ∷ es) c p q h = elim (later h) [
    | inl k ↦
        Member-append_right _ (map on_clients (step max m e).1) _
          (loop-closes max (step max m e).0 es c p q.1 (inl k))
    | inr k ↦ elim (step-IsSafe max m e c p q.0 k) [
      | inl now ↦
          Member-append_left _ (map on_clients (step max m e).1) _ (on_clients-Member c _ now)
      | inr kept ↦
          Member-append_right _ (map on_clients (step max m e).1) _
            (loop-closes max (step max m e).0 es c p q.1 (inr kept))
    ]
  ]
    where
      later :
          Member (connect c) (e ∷ es) ⊎ Member (c.remote, c) m
          → Member (connect c) es ⊎ ((e ≡ connect c) ⊎ Member (c.remote, c) m)
      later (inl (inl g)) = inr (inl (sym g))
      later (inl (inr k)) = inl k
      later (inr k) = inr (inr k)

Member-map : (e : Event) (es : List Event) → Member e es → Member (conn_of e) (map conn_of es)
Member-map e [] h = absurd h
Member-map e (x ∷ es) (inl p) = inl (ap conn_of p)
Member-map e (x ∷ es) (inr h) = inr (Member-map e es h)

All_from : (Q : Event → Type 0) (es : List Event) → ((e : Event) → Member e es → Q e) → All Q es
All_from Q [] h = tt
All_from Q (e ∷ es) h = (h e (inl refl), All_from Q es (λ x m. h x (inr m)))

-- If connections with one remote address are one connection, then every connection that the loop
-- is given is closed once the stop is taken: at once, when it disconnects, or at the stop.
pub stop-closes :
    (max : ℤ) (es : List Event) (c : Conn)
    → ((d e : Conn)
        → Member d (map conn_of es)
        → Member e (map conn_of es)
        → d.remote ≡ e.remote
        → d ≡ e)
    → Member (connect c) es
    → Member (on_clients (close c)) (loop max true [] (map event es ++ stop ∷ [])).1
stop-closes max es c one h =
    loop-closes (λ d. Member d (map conn_of es)) one max [] es c (Member-map (connect c) es h)
      (All_from (λ e. Member (conn_of e) (map conn_of es)) es (λ e m. Member-map e es m)) (inl h)
