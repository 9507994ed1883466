-- ===== src/Udp/Pcb/Valid.antt =====
-- The invariant of the table: a free block is blank, and no two open blocks are bound to the same
-- endpoint.
use llnstack.Base.{
  ℕ, zero, suc, ◌≡◌, ◌⊎◌, Bool, true, false, ◌&&◌, some, List, [], ◌∷◌, All, get_elem?, set, ◌==◌,
  ◌!=◌, arith,
}
use mathlib.Core.Path.{subst}
use llnstack.Udp.Pcb.{is_free, is_open, UdpPcb, unbound}
use llnstack.Udp.Pcb.Select.{NoneAccepts}

-- Both blocks are open and bound to one endpoint. Port 0 is that of a block not yet bound.
abbrev pub clash : UdpPcb → UdpPcb → Bool
clash x y =
    (is_open x.state && is_open y.state)
    && ((x.local.port != 0)
        && ((x.local.port == y.local.port) && (x.local.address == y.local.address)))

abbrev pub ApartFrom : UdpPcb → List UdpPcb → Type 0
ApartFrom x = All (λ y. clash x y ≡ false)

abbrev pub Unique : List UdpPcb → Type 0
Unique [] = Unit {0}
Unique (x ∷ rest) = ApartFrom x rest × Unique rest

abbrev pub IsClean : UdpPcb → Type 0
IsClean x = (is_free x.state ≡ true) → (x.local ≡ unbound) × (x.queue ≡ [])

pub record IsValid (pcbs : List UdpPcb) : Type 0 where
  pub clean : All IsClean pcbs
  pub unique : Unique pcbs

pub All-set :
    (P : UdpPcb → Type 0) (pcbs : List UdpPcb) (i : ℕ) (x : UdpPcb)
    → P x
    → All P pcbs
    → All P (set pcbs i x)
All-set P [] i x p a = tt
All-set P (y ∷ rest) zero x p a = (p, a.1)
All-set P (y ∷ rest) (suc i) x p a = (a.0, All-set P rest i x p a.1)

pub All-get :
    (P : UdpPcb → Type 0) (pcbs : List UdpPcb) (i : ℕ) (x : UdpPcb)
    → All P pcbs
    → get_elem? pcbs i ≡ some x
    → P x
All-get P [] i x a e = absurd (cc)
All-get P (y ∷ rest) zero x a e = let same : y ≡ x = cc in subst P same a.0
All-get P (y ∷ rest) (suc i) x a e = All-get P rest i x a.1 e

Unique-set :
    (pcbs : List UdpPcb) (i : ℕ) (x : UdpPcb)
    → ApartFrom x pcbs
    → Unique pcbs
    → Unique (set pcbs i x)
Unique-set [] i x a u = tt
Unique-set (y ∷ rest) zero x a u = (a.1, u.1)
Unique-set (y ∷ rest) (suc i) x a u = (
  All-set (λ z. clash y z ≡ false) rest i x (ground (arith, a.0)) u.0,
  Unique-set rest i x a.1 u.1,
)

-- A block may be replaced by one that clashes with none of the table and is clean.
pub IsValid-set :
    (pcbs : List UdpPcb) (i : ℕ) (x : UdpPcb)
    → IsClean x
    → ApartFrom x pcbs
    → IsValid pcbs
    → IsValid (set pcbs i x)
IsValid-set pcbs i x c a v = record {
  clean = All-set IsClean pcbs i x c v.clean;
  unique = Unique-set pcbs i x a v.unique;
}

ApartFrom-same :
    (x y : UdpPcb) (pcbs : List UdpPcb)
    → x.state ≡ y.state
    → x.local ≡ y.local
    → ApartFrom x pcbs
    → ApartFrom y pcbs
ApartFrom-same x y [] s l a = tt
ApartFrom-same x y (z ∷ rest) s l a = (ground (arith, a.0, s, l), ApartFrom-same x y rest s l a.1)

Unique-set_same :
    (pcbs : List UdpPcb) (i : ℕ) (x y : UdpPcb)
    → get_elem? pcbs i ≡ some x
    → x.state ≡ y.state
    → x.local ≡ y.local
    → Unique pcbs
    → Unique (set pcbs i y)
Unique-set_same [] i x y e s l u = tt
Unique-set_same (z ∷ rest) zero x y e s l u =
    (ApartFrom-same z y rest (ground (arith, e, s)) (ground (arith, e, l)) u.0, u.1)
Unique-set_same (z ∷ rest) (suc i) x y e s l u = (
  All-set (λ w. clash z w ≡ false) rest i y
      (ground (arith, All-get (λ w. clash z w ≡ false) rest i x u.0 e, s, l)) u.0,
  Unique-set_same rest i x y e s l u.1,
)

-- A block whose state and endpoint stay may change otherwise.
pub IsValid-set_same :
    (pcbs : List UdpPcb) (i : ℕ) (x y : UdpPcb)
    → get_elem? pcbs i ≡ some x
    → x.state ≡ y.state
    → x.local ≡ y.local
    → IsClean y
    → IsValid pcbs
    → IsValid (set pcbs i y)
IsValid-set_same pcbs i x y e s l c v = record {
  clean = All-set IsClean pcbs i y c v.clean;
  unique = Unique-set_same pcbs i x y e s l v.unique;
}

-- A block that is not open, or has no port, clashes with none.
pub ApartFrom-idle :
    (x : UdpPcb) (pcbs : List UdpPcb)
    → (is_open x.state ≡ false) ⊎ (x.local.port ≡ 0)
    → ApartFrom x pcbs
ApartFrom-idle x [] h = tt
ApartFrom-idle x (y ∷ rest) h = (ground arith, ApartFrom-idle x rest h)

-- A block for an endpoint that no open block accepts clashes with none. The address that was looked up
-- is the block's own, unless that is any address.
pub ApartFrom-unaccepted :
    (x : UdpPcb) (addr : ℕ) (pcbs : List UdpPcb)
    → (x.local.address ≡ addr) ⊎ (x.local.address ≡ 0)
    → NoneAccepts addr x.local.port pcbs
    → ApartFrom x pcbs
ApartFrom-unaccepted x addr [] h n = tt
ApartFrom-unaccepted x addr (y ∷ rest) h n =
    (ground (arith, n.0), ApartFrom-unaccepted x addr rest h n.1)
