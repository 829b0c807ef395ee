-- ===== src/Tcp/Registration/Outcomes.antt =====
-- What the steps of a registration leave: the port that is taken, and its way back.
use drip_ex.Base.{
  ltb, Bool-cases, Bytes, Result, ok, err, ℕ, ◌<◌, ◌≡◌, refl, ap, ◌⊎◌, inl, inr, Bool, true, false,
  Option, none, some, arith,
}
use drip_ex.Tcp.Ports.{PortAllocator, PortError}
use drip_ex.Tcp.Ports.Held.{
  IsTaken, Allocated, IsPortTable, IsDraw, allocate-Allocated, allocate_specific-Allocated,
  release-IsTaken,
}
use drip_ex.Resolver.{Resolution}
use drip_ex.Tcp.Registration.{World, RegistrationError, requested_port, named, take_port, give_back}

-- Each port has the same marks in both allocators.
pub record SamePorts (p p' : PortAllocator) : Type 0 where
  pub used : (q : ℕ) → p'.used q ≡ p.used q
  pub listeners : (q : ℕ) → p'.listeners q ≡ p.listeners q

abbrev pub SameTables : Option PortAllocator → Option PortAllocator → Type 0
SameTables none none = Unit
SameTables (some p) (some p') = SamePorts p p'
SameTables none (some p') = ⊥
SameTables (some p) none = ⊥

-- The tables are in order, if there are any.
abbrev pub AreInOrder : Option PortAllocator → Type 0
AreInOrder none = Unit
AreInOrder (some p) = IsPortTable p

abbrev pub AreDraws : Option PortAllocator → (ℕ → ℕ) → Type 0
AreDraws none draw = Unit
AreDraws (some p) draw = IsDraw p draw

-- Port 0 is no port; any other is taken in the allocator.
abbrev pub HasPort : Option PortAllocator → Option PortAllocator → ℕ → Type 0
HasPort none ports' port = (ports' ≡ none) × (port ≡ 0)
HasPort (some p) ports' port =
    ((ports' ≡ some p) × (port ≡ 0))
    ⊎ ((p' : PortAllocator) × (ports' ≡ some p') × IsTaken p p' port × (0 < port))

abbrev pub PortTaken :
    Option PortAllocator → Option PortAllocator × Result RegistrationError (ℕ × Bytes) → Type 0
PortTaken ports (ports', ok (port, name)) = HasPort ports ports' port
PortTaken ports (ports', err e) = ports' ≡ ports

named-PortTaken :
    (p : PortAllocator) (name : ℕ → Bytes) (out : PortAllocator × Result PortError ℕ)
    → IsPortTable p
    → Allocated p out
    → PortTaken (some p) (named name out)
named-PortTaken p name (p', ok port) v w = inr (p', refl, w, omega (arith, v.lower, w.above))
named-PortTaken p name (p', err e) v w = ap some w

pub take_port-PortTaken :
    (w : World) (is_tcp : Bool) (res : Resolution) (ports : Option PortAllocator)
    → AreInOrder ports
    → AreDraws ports w.draw
    → PortTaken ports (take_port w is_tcp res ports)
unfolding take_port
take_port-PortTaken w false res none v d = (refl, refl)
take_port-PortTaken w false res (some p) v d = inl (refl, refl)
take_port-PortTaken w true res none v d = refl
take_port-PortTaken w true res (some p) v d = elim (Bool-cases (ltb 0 (requested_port res))) [
  | inl asked ↦
      rw asked (named-PortTaken p _ _ v (allocate_specific-Allocated _ (requested_port res) p))
  | inr any_port ↦
      rw any_port (named-PortTaken p _ _ v (allocate-Allocated w.draw w.can_listen p d))
]

pub SameTables-refl : (ports : Option PortAllocator) → SameTables ports ports
SameTables-refl none = tt
SameTables-refl (some p) = record { used = λ q. refl; listeners = λ q. refl }

-- A port that was taken and is given back leaves the tables as they were.
pub give_back-SameTables :
    (ports ports' : Option PortAllocator) (port : ℕ)
    → AreInOrder ports
    → HasPort ports ports' port
    → SameTables ports (give_back port ports')
give_back-SameTables none ports' port v (e, z) = rw e tt
give_back-SameTables (some p) ports' port v (inl (e, z)) = rw (e, z) (SameTables-refl (some p))
give_back-SameTables (some p) ports' port v (inr (p', e, w, held)) =
    let asked : ltb 0 port ≡ true = ground arith in
    rw (e, asked)
      (record {
        used = λ q. (release-IsTaken p p' port q v w).0;
        listeners = λ q. (release-IsTaken p p' port q v w).1;
      })
