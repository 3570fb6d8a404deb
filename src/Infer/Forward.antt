-- ===== src/Infer/Forward.antt =====
-- `forward` of libpi/src/run.c, with `rmsnorm` and `softmax`. Loops has the loops over the cells of an
-- array, Norm the two functions, Attention the heads, Layer a layer and the whole pass. A buffer is a
-- list of floats; `none` is an access out of range.
pub mod Loops
pub mod Norm
pub mod Cells
pub mod Attention
pub mod Layer
pub mod Returns
pub mod Heads
pub mod InPlace
pub mod Shape
pub mod Kept
pub mod Room
pub mod Pass
pub mod Total
