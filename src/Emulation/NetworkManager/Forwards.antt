-- ===== src/Emulation/NetworkManager/Forwards.antt =====
-- Forwarding rules that are added and removed.
use linblock.Prelude.{
  ℕ, nat_eq, ==_refl, ◌≡◌, refl, ap, ◌∙◌, is_some, true, false, none, ok, err, Option-cases,
  Bool-cases, inl, inr, ◌⊎◌,
}
use linblock.Dict
use linblock.Dict.{get-put, remove-put_new}
use linblock.Emulation.NetworkManager.{
  network_not_enabled, port_forward_error, NetworkManager, add_port_forward, remove_port_forward,
}

added :
    (n : NetworkManager) (host_port guest_port : ℕ)
    → n.enabled ≡ true
    → Dict.get n.forwards host_port ≡ none
    → add_port_forward host_port guest_port n
      ≡ (ok tt, record n { forwards = Dict.put n.forwards host_port guest_port })
unfolding add_port_forward
added n host_port guest_port up free = simp (up, free) refl

refused_again :
    (n : NetworkManager) (host_port guest_port again : ℕ)
    → n.enabled ≡ true
    → (add_port_forward host_port again
        (record n { forwards = Dict.put n.forwards host_port guest_port })).0
      ≡ err (port_forward_error host_port)
unfolding add_port_forward
refused_again n host_port guest_port again up = simp (up, get-put, ==_refl) refl

removed :
    (n : NetworkManager) (host_port guest_port : ℕ)
    → Dict.get n.forwards host_port ≡ none
    → remove_port_forward host_port
        (record n { forwards = Dict.put n.forwards host_port guest_port })
      ≡ (ok tt, n)
unfolding remove_port_forward
removed n host_port guest_port free =
    simp (get-put, ==_refl, remove-put_new n.forwards host_port guest_port free) refl

-- One of three: the network is not enabled, and a rule is refused for that; or it is enabled and the
-- host port has a rule, and the rule is refused for that, both times with nothing changed; or it is enabled and the
-- port has none, and the rule is added, the same port is then refused, and removing it gives
-- the manager as it was.
pub remove_port_forward-add_port_forward :
    (n : NetworkManager) (host_port guest_port again : ℕ)
    → ((n.enabled ≡ false)
        × (add_port_forward host_port guest_port n ≡ (err network_not_enabled, n)))
      ⊎ (((n.enabled ≡ true)
            × (Dict.contains n.forwards host_port ≡ true)
            × (add_port_forward host_port guest_port n ≡ (err (port_forward_error host_port), n)))
          ⊎ ((n.enabled ≡ true)
              × (Dict.contains n.forwards host_port ≡ false)
              × ((add_port_forward host_port guest_port n).0 ≡ ok tt)
              × ((add_port_forward host_port again (add_port_forward host_port guest_port n).1).0
                  ≡ err (port_forward_error host_port))
              × (remove_port_forward host_port (add_port_forward host_port guest_port n).1
                  ≡ (ok tt, n))))
unfolding add_port_forward
remove_port_forward-add_port_forward n host_port guest_port again = elim (Bool-cases n.enabled) [
  | inr down ↦ inl (down, simp down refl)
  | inl up ↦ elim (Option-cases (Dict.get n.forwards host_port)) [
    | inr (old, held) ↦ inr (inl (up, ap is_some held, simp (up, held) refl))
    | inl free ↦
        let e = added n host_port guest_port up free in
        inr (
          inr (
            up,
            ap is_some free,
            ap (λ r. r.0) e,
            ap (λ r. (add_port_forward host_port again r.1).0) e
                ∙ refused_again n host_port guest_port again up,
            ap (λ r. remove_port_forward host_port r.1) e ∙ removed n host_port guest_port free,
          ))
  ]
]
