-- ===== src/Tests/Orders.antt =====
-- A backplane of two regions, in both orders.
use yukimi.Base.{Str, text, str_beq, Dict, ◌≡◌, refl, false, [], ◌∷◌}
use yukimi.Errors.{Result, ok}
use yukimi.Tests.Configs.{raw_region_one, frankfurt, some_file}
use yukimi.Config.Backplane.Load.{RawRegion, RawBackplane, load}
use yukimi.Config.Backplane.Load.Order.{Shuffled, load-Shuffled}

abbrev dublin : Str
dublin = text "aws-eu-west-1"

abbrev first_order : Dict Str RawRegion
first_order = (frankfurt, raw_region_one) ∷ (dublin, raw_region_one) ∷ []

abbrev second_order : Dict Str RawRegion
second_order = (dublin, raw_region_one) ∷ (frankfurt, raw_region_one) ∷ []

abbrev decode_order : Dict Str RawRegion → Str → Result RawBackplane
decode_order m bytes = ok (record { global_parameters = []; regions = m })

apart : str_beq frankfurt dublin ≡ false
unfolding str_beq text
apart = refl

load-Shuffled_example :
    load some_file (decode_order first_order) [] ≡ load some_file (decode_order second_order) []
load-Shuffled_example =
    load-Shuffled some_file (decode_order first_order) (decode_order second_order) [] [] []
      first_order second_order refl refl refl (Shuffled.swap apart)
