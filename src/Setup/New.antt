-- ===== src/Setup/New.antt =====
-- `ezgrpc2_server_new`.
use ezgrpc.Prelude.{ℕ, ◌≡◌, ◌↔◌, inl, inr, false, Option, none, some, List, arith, Option-cases}
use ezgrpc.Wire.{Byte}
use ezgrpc.Setup.{Answers, listening, listen_ipv6}

-- All calls for a listener succeed, with this descriptor.
pub record Listens (a : Answers) (fd : ℕ) : Type 0 where
  pub socket : a.socket ≡ some fd
  pub reuseaddr : a.reuseaddr_fails ≡ false
  pub binds : a.bind_fails ≡ false
  pub listens : a.listen_fails ≡ false
  pub nonblock : a.makenonblock_fails ≡ false

pub record Listens6 (a : Answers) (fd : ℕ) : Type 0 where
  pub address : a.inet_pton_fails ≡ false
  pub v6only : a.v6only_fails ≡ false
  pub all : Listens a fd

abbrev pub Ready4 : Option (List Byte) → Answers → Option ℕ → Type 0
Ready4 none a fd = fd ≡ none
Ready4 (some addr) a fd = (n : ℕ) × (fd ≡ some n) × Listens a n

abbrev pub Ready6 : Option (List Byte) → Answers → Option ℕ → Type 0
Ready6 none a fd = fd ≡ none
Ready6 (some addr) a fd = (n : ℕ) × (fd ≡ some n) × Listens6 a n

listen_ipv6-Ready :
    (addr : Option (List Byte)) (a : Answers) (fd : Option ℕ)
    → (listen_ipv6 addr a ≡ listening fd) ↔ Ready6 addr a fd
unfolding listen_ipv6
listen_ipv6-Ready none a fd = (λ e. cc, λ e. cc)
listen_ipv6-Ready (some addr) a fd = elim (Option-cases a.socket) [
  | inl e ↦ (λ h. ground arith, λ h. ground (arith, h.2))
  | inr (n, e) ↦ (λ h. (n, ground arith, ground arith), λ h. ground (arith, h.2))
]
