-- ===== src/Ribbon.antt =====
-- reconciliation/src/algorithms/ribbon: the ribbon filter. Its builder solves one linear equation
-- over GF(2) for each key, in bands of at most 128 coefficients, and a lookup evaluates the key's
-- equation at the solution. A word is a number below 2 ^ 64; the flat vectors of `m` rows of words are
-- lists of rows. The four vectors of the elimination (occupied, both halves of the coefficients, right
-- sides) are one list of optional equations.
pub mod Params
pub mod Hashing
pub mod Filter
pub mod Builder
pub mod Dot
pub mod SetBits
pub mod Shift
pub mod Reduce
pub mod Rows
pub mod Place
pub mod Elimination
pub mod Equation
pub mod Keys
pub mod Column
pub mod Solve
pub mod Lookup
pub mod Members
pub mod Attempts
pub mod Bounds
pub mod InBounds
pub mod Offsets
pub mod Total
