-- ===== src/Text/Sort.antt =====
-- Sorting two texts forgets which came first.
use decentralized_p2p_chat_s.Base.{◌≡◌, arith, Bytes, bytes_lt_asymm, bytes_lt_connected}
use decentralized_p2p_chat_s.Text.{sort_pair}

pub sort_pair_comm : (x y : Bytes) → sort_pair x y ≡ sort_pair y x
unfolding sort_pair
sort_pair_comm x y = ground (arith, bytes_lt_asymm x y, bytes_lt_asymm y x, bytes_lt_connected x y)
