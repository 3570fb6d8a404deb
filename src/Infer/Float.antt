-- ===== src/Infer/Float.antt =====
-- The floating-point arithmetic that the inference program uses: a type with its operations, and
-- nothing assumed of them. `vmla` is one lane of NEON's `vmlaq_f32`.
pub record Floats : Type 1 where
  pub Float : Type 0
  pub zero : Float
  pub add : Float → Float → Float
  pub mul : Float → Float → Float
  pub vmla : Float → Float → Float → Float
