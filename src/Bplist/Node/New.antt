-- ===== src/Bplist/Node/New.antt =====
-- The data of the nodes that the functions `plist_new_*` of src/plist.c make.
use libplist.Prelude.{ℕ, ◌-◌, ◌^◌, List, [], ltb, ◌==◌, if◌then◌else◌}
use libplist.Prelude
use libplist.Bplist.Node.{
  PlistData, boolean, int, real, string, bytes, array, dict, uid, date, null, no_value, boolval,
  intval, realval, strval, buff,
}

unfoldable pub plist_new_array : PlistData
plist_new_array = record { value = no_value; length = 0; kind = array }

unfoldable pub plist_new_dict : PlistData
plist_new_dict = record { value = no_value; length = 0; kind = dict }

-- `val` is the text before its zero byte.
unfoldable pub plist_new_string : List ℕ → PlistData
plist_new_string val = record { value = strval val; length = Prelude.length val; kind = string }

unfoldable pub plist_new_bool : ℕ → PlistData
plist_new_bool val = record { value = boolval val; length = 1; kind = boolean }

-- The test is against INT_MAX.
unfoldable pub plist_new_uint : ℕ → PlistData
plist_new_uint val = record {
  value = intval val;
  length = if ltb (2 ^ 31 - 1) val then 16 else 8;
  kind = int;
}

-- A negative number is its 64 bits.
unfoldable pub plist_new_int : ℕ → PlistData
plist_new_int val = record { value = intval val; length = 8; kind = int }

unfoldable pub plist_new_uid : ℕ → PlistData
plist_new_uid val = record { value = intval val; length = 8; kind = uid }

unfoldable pub plist_new_real : ℕ → PlistData
plist_new_real val = record { value = realval val; length = 8; kind = real }

-- `val` is what lies at the pointer, which is not NULL.
unfoldable pub plist_new_data : List ℕ → PlistData
plist_new_data val = record {
  value = if Prelude.length val == 0 then no_value else buff val;
  length = Prelude.length val;
  kind = bytes;
}

-- `plist_new_date` and `plist_new_unix_date`, from the seconds as a double on.
unfoldable pub new_date : ℕ → PlistData
new_date seconds = record { value = realval seconds; length = 8; kind = date }

-- `intval = 0` leaves the union as `calloc` made it.
unfoldable pub plist_new_null : PlistData
plist_new_null = record { value = no_value; length = 0; kind = null }
