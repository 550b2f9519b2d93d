-- ===== src/Tests/Products.antt =====
-- Concrete products.
use so.Prelude.{◌*◌, true, false, ◌≡◌, arith}
use so.Machine.Mips.Multiply.{mult}
use so.Machine.Mips.Multiply.Rounds.{double}
use so.Machine.Mips.Multiply.Product.{mult_lem}

-- Three times minus two, and as words without sign.
mult_lem_example :
    (double (mult 3 0xffff_fffe false) ≡ 3 * 0xffff_fffe)
    × (double (mult 3 0xffff_fffe true) ≡ 0xffff_ffff_ffff_fffa)
mult_lem_example = mult_lem 3 0xffff_fffe (omega arith) (omega arith)
