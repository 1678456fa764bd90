-- ===== src/Cmd/Requests.antt =====
-- cmd_create.c: the template parser always ends, and what it hands over fits its fields.
use native_smart_card_os.Cmd.Select.{Target, Target-cases, answer, target}
use native_smart_card_os.Cmd.Template.{
  Gathered, complete, gather_loop, nothing_gathered, parse_fcp, parse_objects, take_fdb, take_fid,
  take_lifecycle, take_object, take_sfi, take_size,
}
use native_smart_card_os.Tlv.{TlvObject, TlvReader, tlv_next, tlv_reader_init}
use native_smart_card_os.Tlv.Bounds.{IsReader, tlv_next-IsReader}
use native_smart_card_os.Tree.Creation.{IsRequest}
use native_smart_card_os.Common.{List, Option, arith, inl, inr, none, some, suc, zero, ℕ, ◌+◌, ◌<◌}

-- A target that satisfies a predicate; a status word satisfies every one.
abbrev pub Holds : {A : Type 0} → (A → Type 0) → Target A → Type 0
Holds P (target a) = P a
Holds P (answer sw) = Unit

-- The same where the fuel was enough.
abbrev pub Ends : {A : Type 0} → (A → Type 0) → Option (Target A) → Type 0
Ends P (some t) = Holds P t
Ends P none = ⊥

abbrev Fits : Gathered → Type 0
Fits g = IsRequest g.req

take_object-Fits : (obj : TlvObject) (g : Gathered) → Fits g → Holds Fits (take_object obj g)
unfolding take_object take_fdb take_fid take_size take_lifecycle take_sfi
take_object-Fits obj g h = ground arith

gather_loop-Fits :
    (fuel : ℕ) (r : TlvReader) (g : Gathered)
    → IsReader r
    → r.len < fuel + r.pos
    → Fits g
    → Ends Fits (gather_loop fuel r g)
unfolding gather_loop
gather_loop-Fits zero r g h enough fit = absurd (omega (arith, h.within))
gather_loop-Fits (suc fuel) r g h enough fit =
    let (st, r', obj) = tlv_next r in
    elim (Target-cases (take_object obj g)) [
      | inr (sw, e) ↦ ground (arith, e)
      | inl (g', e) ↦
          ground (
            arith,
            e,
            take_object-Fits obj g fit,
            tlv_next-IsReader r h,
            gather_loop-Fits fuel r' g',
          )
    ]

parse_objects_lem : (inner : Option (List ℕ)) (len : ℕ) → Ends IsRequest (parse_objects inner len)
unfolding parse_objects complete tlv_reader_init
parse_objects_lem none len = unfold gather_loop tlv_next in ground arith
parse_objects_lem (some buf) len = ground (
  arith,
  gather_loop-Fits (len + 1) (tlv_reader_init (some buf) len) nothing_gathered
      (record { present = λ e. cc; within = omega arith }) (omega arith)
      (record { fid_fits = omega arith; access_fits = (omega arith, omega arith) }),
)

-- The parser of CREATE FILE ends on every data field, with a status word or with a request whose
-- numbers fit their fields.
pub parse_fcp_lem : (body : Option (List ℕ)) (len : ℕ) → Ends IsRequest (parse_fcp body len)
unfolding parse_fcp
parse_fcp_lem body len =
    let (st, outer, obj) = tlv_next (tlv_reader_init body len) in
    ground (arith, parse_objects_lem body len, parse_objects_lem obj.value obj.size)
