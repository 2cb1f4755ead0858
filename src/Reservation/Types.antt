-- ===== src/Reservation/Types.antt =====
-- The stations of reservation-station.c keep their type.
use fakerv32i.Base.{
  ℕ, zero, suc, get_elem?, in_range, ◌≡◌, refl, ◌∙◌, Bool, false, not, ◌||◌, ◌==◌, List, [], ◌∷◌,
  map, set, done, Always, Always-bind, Always-then, Always-if,
}
use fakerv32i.Rv32i.{RsType}
use fakerv32i.Reg.{reg_mut_write}
use fakerv32i.Reservation.{CdbMessage, Station, rs_onmsg, rsu_clear, receive1, receive2}

-- A list of stations that are all of one type.
abbrev pub AreOfType : RsType → List Station → Type 0
AreOfType t [] = Unit
AreOfType t (rs ∷ rest) = (rs.rs_type ≡ t) × AreOfType t rest

-- An operation on one station that keeps its type.
abbrev pub KeepsType : Station → Station → Type 0
KeepsType rs rs' = rs'.rs_type ≡ rs.rs_type

pub set-AreOfType :
    (t : RsType) (rss : List Station) (ix : ℕ) (rs : Station)
    → AreOfType t rss
    → rs.rs_type ≡ t
    → AreOfType t (set rss ix rs)
set-AreOfType t [] ix rs h e = tt
set-AreOfType t (x ∷ rest) zero rs h e = (e, h.1)
set-AreOfType t (x ∷ rest) (suc ix) rs h e = (h.0, set-AreOfType t rest ix rs h.1 e)

pub map-AreOfType :
    (t : RsType) (f : Station → Station) (rss : List Station)
    → ((rs : Station) → KeepsType rs (f rs))
    → AreOfType t rss
    → AreOfType t (map f rss)
map-AreOfType t f [] k h = tt
map-AreOfType t f (rs ∷ rest) k h = (k rs ∙ h.0, map-AreOfType t f rest k h.1)

pub rs_onmsg-KeepsType :
    (clearing : Bool) (msg : CdbMessage) (rs : Station)
    → Always (KeepsType rs) (rs_onmsg clearing msg rs)
unfolding rs_onmsg
rs_onmsg-KeepsType clearing msg rs =
    let old = rs.payload.buf in
    Always-if (KeepsType rs) clearing (done rs) _ refl (
      Always-if (KeepsType rs) (not rs.busy.buf) (done rs) _ refl (
        Always-if (KeepsType rs) ((old.src1 == msg.rob) || (old.src2 == msg.rob)) _ (done rs)
          (Always-then (KeepsType rs)
            (reg_mut_write rs.payload (λ _. receive2 msg (receive1 msg old))) _ λ p. refl)
          refl))

pub rsu_clear-AreOfType :
    (t : RsType) (rss : List Station) → AreOfType t rss → Always (AreOfType t) (rsu_clear rss)
unfolding rsu_clear
rsu_clear-AreOfType t [] h = tt
rsu_clear-AreOfType t (rs ∷ rest) h =
    Always-then (AreOfType t) (reg_mut_write rs.busy (λ _. false)) _ λ busy'.
      Always-bind (AreOfType t) (AreOfType t) (rsu_clear rest) _ (rsu_clear-AreOfType t rest h.1)
        λ rest' h'. (h.0, h')

-- A station that is found is of the type.
pub get_elem?-type :
    (t : RsType) (rss : List Station) (ix : ℕ)
    → AreOfType t rss
    → Always (λ rs. rs.rs_type ≡ t) (in_range (get_elem? rss ix))
get_elem?-type t [] ix h = tt
get_elem?-type t (rs ∷ rest) zero h = h.0
get_elem?-type t (rs ∷ rest) (suc ix) h = get_elem?-type t rest ix h.1
