-- ===== src/Core/Address/Policy.antt =====
-- What the policy lets through.
use lunefetch.Base.{
  ◌≡◌, sym, ap, subst, ◌∙◌, List, [], ◌∷◌, some, Bool, true, false, All, Bool-cases, inl, inr,
}
use lunefetch.Core.Address.{
  Addr, AddressPolicy, blocked, Dialed, connected, any_blocked, dial_each, dial_resolved,
  dial_context,
}

any_blocked_lem :
    (p : AddressPolicy) (as_list : List Addr)
    → any_blocked p as_list ≡ false
    → All (λ a. blocked p a ≡ false) as_list
unfolding any_blocked
any_blocked_lem p [] h = tt
any_blocked_lem p (a ∷ rest) h = elim (Bool-cases (blocked p a)) [
  | inl e ↦ cc (rw e at h)
  | inr e ↦ (e, any_blocked_lem p rest (rw e at h))
]

dial_each_lem :
    (P : Addr → Type 0) (reaches : Addr → Bool) (a : Addr) (addrs : List Addr)
    → All P addrs
    → dial_each reaches addrs ≡ connected a
    → P a × (reaches a ≡ true)
unfolding dial_each
dial_each_lem P reaches a [] h e = cc
dial_each_lem P reaches a (b ∷ rest) (h, hs) e = elim (Bool-cases (reaches b)) [
  | inl k ↦ same (rw k at e) k
  | inr k ↦ dial_each_lem P reaches a rest hs (rw k at e)
]
  where
    address : Dialed → Addr
    address (connected x) = x
    address _ = b

    same : connected b ≡ connected a → reaches b ≡ true → P a × (reaches a ≡ true)
    same q k = let w : b ≡ a = ap address q in (subst P w h, ap reaches (sym w) ∙ k)

-- A connection of dialContext other than to the proxy is to an address that the policy lets through,
-- and no address of that host is blocked.
pub dial_context-screened :
    (p : AddressPolicy) (resolved : List Addr) (reaches : Addr → Bool) (a : Addr)
    → dial_context p (some resolved) reaches ≡ connected a
    → (p.is_proxy ≡ false)
      × (blocked p a ≡ false)
      × (reaches a ≡ true)
      × All (λ b. blocked p b ≡ false) resolved
unfolding dial_context
dial_context-screened p resolved reaches a h = elim (Bool-cases p.is_proxy) [
  | inl e ↦ cc (simp e at h)
  | inr e ↦ let (free, reached, fine) = resolves resolved (simp e at h) in (e, free, reached, fine)
]
  where
    resolves :
        (addrs : List Addr)
        → dial_resolved p reaches (some addrs) ≡ connected a
        → (blocked p a ≡ false) × (reaches a ≡ true) × All (λ b. blocked p b ≡ false) addrs
    resolves [] k = cc
    resolves (b ∷ rest) k = elim (Bool-cases (any_blocked p (b ∷ rest))) [
      | inl bad ↦ cc (rw bad at k)
      | inr good ↦
          let fine : All (λ b. blocked p b ≡ false) (b ∷ rest) =
            any_blocked_lem p (b ∷ rest) good in
          let (free, reached) =
            dial_each_lem (λ b. blocked p b ≡ false) reaches a (b ∷ rest) fine (rw good at k) in
          (free, reached, fine)
    ]
