-- ===== src/Core/Types/Codec.antt =====
-- The texts of kinds and statuses, as the journal stores them, are read back to what was written.
use tree_miner_amd.Prelude.{◌≡◌, refl, some, arith, Text.{Text, codes, text_eq_iff}}
use tree_miner_amd.Core.Types.{
  FindKind, FindStatus, kind_as_str, kind_parse, status_as_str, status_parse, xen11, xuni,
}

pub kind_parse-kind_as_str : (k : FindKind) → kind_parse (kind_as_str k) ≡ some k
unfolding kind_parse kind_as_str
kind_parse-kind_as_str xen11 = refl
kind_parse-kind_as_str xuni = refl

pub status_parse-status_as_str : (s : FindStatus) → status_parse (status_as_str s) ≡ some s
unfolding status_parse status_as_str
status_parse-status_as_str FindStatus.pending = refl
status_parse-status_as_str _ = refl

-- Nothing but the text of a status is read as it.
pub status_as_str_of_parse :
    (t : Text) (s : FindStatus) → status_parse t ≡ some s → status_as_str s ≡ t
unfolding status_parse status_as_str
status_as_str_of_parse t s h = ground (
  arith,
  text_eq_iff t (codes "Pending"),
  text_eq_iff t (codes "Submitting"),
  text_eq_iff t (codes "AcceptedUnconfirmed"),
  text_eq_iff t (codes "Acked"),
  text_eq_iff t (codes "ParkedDifficulty"),
  text_eq_iff t (codes "ParkedXuniWindow"),
  text_eq_iff t (codes "Quarantined"),
  text_eq_iff t (codes "Dead"),
  text_eq_iff t (codes "PermanentlyInvalid"),
)

-- So does each text of a kind.
pub kind_as_str_of_parse : (t : Text) (k : FindKind) → kind_parse t ≡ some k → kind_as_str k ≡ t
unfolding kind_parse kind_as_str
kind_as_str_of_parse t k h =
    ground (arith, text_eq_iff t (codes "XEN11"), text_eq_iff t (codes "XUNI"))
