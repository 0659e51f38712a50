-- ===== src/Login/Spoofing.antt =====
-- What a client writes into `X-Forwarded-For` does not change the address it is counted under
-- (app/services/login_guard.py).
use beautypos.Prelude.{
  ℕ, ◌-◌, ◌≡◌, refl, ap, Bool, false, Bool-cases, inl, inr, not, List, [], ◌∷◌, ◌++◌, Option, some,
  ==_refl, length, length-append, map, where_, drop, arith, ◌==◌,
}
use mathlib.Core.List.{reverse, reverse-cons, append_assoc, append-nil, map-append}
use beautypos.Text.{Text, strip, split, split_from, is_empty}
use beautypos.Login.ClientIp.{hops, pick, peer_or_unknown, client_ip}

abbrev pub Without : ℕ → Text → Type 0
Without sep [] = Unit
Without sep (c ∷ s) = ((c == sep) ≡ false) × Without sep s

split_from-whole :
    (sep : ℕ) (piece t : Text) → Without sep t → split_from sep piece t ≡ (reverse piece ++ t) ∷ []
unfolding split_from
split_from-whole sep piece [] h = rw (append-nil (reverse piece)) refl
split_from-whole sep piece (c ∷ t) h =
    rw (h.0, split_from)
      (rw
        (
          split_from-whole sep (c ∷ piece) t h.1,
          reverse-cons c piece,
          append_assoc (reverse piece) (c ∷ []) t,
        )
        refl)

split_from-append :
    (sep : ℕ) (piece s t : Text)
    → Without sep t
    → split_from sep piece (s ++ sep ∷ t) ≡ split_from sep piece s ++ t ∷ []
unfolding split_from
split_from-append sep piece [] t h =
    rw (==_refl sep, split_from) (rw (split_from-whole sep [] t h) refl)
split_from-append sep piece (c ∷ s) t h = elim (Bool-cases (c == sep)) [
  | inl e ↦ rw (e, split_from) (ap (λ r. reverse piece ∷ r) (split_from-append sep [] s t h))
  | inr e ↦ rw (e, split_from) (split_from-append sep (c ∷ piece) s t h)
]

where_-append {ℓ} :
    {A : Type ℓ} (p : A → Bool) (xs ys : List A) → where_ p (xs ++ ys) ≡ where_ p xs ++ where_ p ys
where_-append p [] ys = refl
where_-append p (x ∷ xs) ys = elim (Bool-cases (p x)) [
  | inl e ↦ rw e (ap (λ r. x ∷ r) (where_-append p xs ys))
  | inr e ↦ rw e (where_-append p xs ys)
]

drop-length {ℓ} : {A : Type ℓ} (xs ys : List A) → drop (length xs) (xs ++ ys) ≡ ys
drop-length [] ys = refl
drop-length (x ∷ xs) ys = drop-length xs ys

pick-last : (peer hop : Text) (hs : List Text) → pick peer (hs ++ hop ∷ []) ≡ hop
unfolding pick
pick-last peer hop hs =
    let one_back : length (hs ++ hop ∷ []) - 1 ≡ length hs =
      omega (arith, length-append hs (hop ∷ [])) in
    rw (one_back, pick) (rw (drop-length hs (hop ∷ []), pick) refl)

-- The address is the last hop, which our proxy has added, whatever the client has sent before it.
pub client_ip-proxy :
    (peer : Option Text) (sent hop : Text)
    → Without b',' hop
    → is_empty (strip hop) ≡ false
    → client_ip (some (record { peer = peer; forwarded = some (sent ++ b',' ∷ hop) })) ≡ strip hop
unfolding client_ip hops split
client_ip-proxy peer sent hop h shown =
    rw
      (
        split_from-append b',' [] sent hop h,
        map-append strip (split_from b',' [] sent) (hop ∷ []),
        where_-append (λ p. not (is_empty p)) (map strip (split_from b',' [] sent))
            (strip hop ∷ []),
      )
      (rw shown (
        pick-last (peer_or_unknown peer) (strip hop)
          (where_ (λ p. not (is_empty p)) (map strip (split_from b',' [] sent)))))
