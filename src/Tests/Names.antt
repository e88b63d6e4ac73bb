-- ===== src/Tests/Names.antt =====
-- The names of the model's constants.
use code_iq.Base.{refl}
use code_iq.Base.Text.{lit, is_space}
use code_iq.Base.Text.Fold.{AllSpace}

space : AllSpace (lit " ")
unfolding is_space
space = (refl, tt)
