-- ===== src/Directional/Scaling.antt =====
-- `scale_stress90_product_weights` of stress90_risk_overlay.py.
use afuture.Prelude.{
  String, Bool, not, ◌&&◌, ◌||◌, [], ◌∷◌, if◌then◌else◌, Result, ok, ◌>>◌, raise_if,
}
use afuture.Prelude.Int.{pos}
use afuture.Prelude.Text.{str_eq}
use afuture.Dict.{Dict, string_eq, insert}
use afuture.Float.{FloatOps, fzero, fabs}
use afuture.Models.{Error, bad_scale}
use afuture.Directional.Targets.{dust}

module _ {F : Type 0} ⦃fl : FloatOps F⦄ (upper : String → String) where
  -- `_finite_scale`
  abbrev pub bad_live_scale : F → Bool
  bad_live_scale scale =
      not (fl.is_finite scale) || not (fl.lt fzero scale && fl.le scale (fl.of_int (pos 1)))

  -- What the loop refuses of a weight: its value, or a scaled value that is larger or of another sign.
  abbrev pub bad_scaling : String → F → F → Bool
  bad_scaling product value scaled =
      str_eq product ""
      || not (fl.is_finite value)
      || fl.lt (fl.add (fabs value) dust) (fabs scaled)
      || (not (fl.eq value fzero)
          && not (fl.eq scaled fzero)
          && (if fl.lt fzero scaled then not (fl.lt fzero value) else fl.lt fzero value))

  unfoldable pub scale_all : F → Dict String F → Dict String F → Result Error (Dict String F)
  scale_all scale [] result = ok result
  scale_all scale ((raw_product, value) ∷ weights) result =
      let product = upper raw_product in
      let scaled = fl.mul value scale in
      raise_if (bad_scaling product value scaled) bad_scale
      >> scale_all scale weights (insert product scaled result)

  -- `scale_stress90_product_weights`
  unfoldable pub scale_stress90_product_weights : Dict String F → F → Result Error (Dict String F)
  unfolding scale_all
  scale_stress90_product_weights weights scale =
      raise_if (bad_live_scale scale) bad_scale >> scale_all scale weights []
