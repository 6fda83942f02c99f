-- ===== src/Server/Endpoint.antt =====
-- Where the server listens, by the scheme of its endpoint.
use hostpath_provisioner.Base.{
  ◌≡◌, refl, ◌++◌, [], ◌∷◌, none, some, Text, bytes, text_eq, text_beq, is_empty, false, ok,
  returns, arith,
}
use hostpath_provisioner.Os.{Os}
use hostpath_provisioner.Server.{parse, remove_stale, listen}

parse_unix :
    (addr : Text)
    → is_empty addr ≡ false
    → parse (bytes "unix://" ++ addr) ≡ ok (bytes "unix", addr)
unfolding parse
parse_unix (c ∷ addr) h = refl
parse_unix [] h = cc

parse_upper :
    (addr : Text)
    → is_empty addr ≡ false
    → parse (bytes "UNIX://" ++ addr) ≡ ok (bytes "UNIX", addr)
unfolding parse
parse_upper (c ∷ addr) h = refl
parse_upper [] h = cc

module _ (O : Os) where
  -- An endpoint "unix://" followed by an address that is not empty: where the removal of the stale
  -- socket and the call of net.Listen work, the server listens on a Unix socket at the address with
  -- "/" in front, behind that removal, and the socket is what the cleanup will remove.
  pub listen_unix :
      (addr : Text) (s s₁ s₂ : O.State)
      → is_empty addr ≡ false
      → O.remove (bytes "/" ++ addr) s ≡ (ok tt, s₁)
      → O.listen (bytes "unix") (bytes "/" ++ addr) s₁ ≡ (ok tt, s₂)
      → listen O (bytes "unix://" ++ addr) s ≡ (returns (some (bytes "/" ++ addr)), s₂)
  unfolding listen remove_stale text_beq
  listen_unix addr s s₁ s₂ h r l = ground (arith, parse_unix addr h)

  -- An endpoint "UNIX://" followed by an address that is not empty is accepted but not taken for
  -- "unix": where the call of net.Listen works, the server listens at the address as it is, with no
  -- "/" in front, no stale socket is removed, and the cleanup will remove nothing.
  pub listen_upper :
      (addr : Text) (s s' : O.State)
      → is_empty addr ≡ false
      → O.listen (bytes "unix") addr s ≡ (ok tt, s')
      → listen O (bytes "UNIX://" ++ addr) s ≡ (returns none, s')
  unfolding listen text_beq
  listen_upper addr s s' h l = ground (arith, parse_upper addr h)
