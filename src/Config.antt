-- ===== src/Config.antt =====
-- ConfigMgr.h and ConfigMgr.cpp: the settings by section and key. What Boost reads from the file is an
-- argument: the sections, each with its keys and values, where no name of a section occurs twice and no
-- key twice in a section; Boost throws for a file that has such a thing.
use boost_asio_threadpool.Base.{
  Bytes_eq, List, Option, String, String_eq, [], insert, lookup, none, some, ◌∷◌,
}

-- `SectionInfo`, its `_section_datas`.
abbrev pub SectionInfo : Type 0
SectionInfo = List (String × String)

-- `_config_map`.
abbrev pub ConfigMap : Type 0
ConfigMap = List (String × SectionInfo)

-- The value that was found, or the empty string.
unfoldable pub value_or_empty : Option String → String
value_or_empty none = ""
value_or_empty (some value) = value

-- `SectionInfo::GetValue`, and `operator[]` of a section.
unfoldable pub section_value : String → SectionInfo → String
section_value key datas = value_or_empty (lookup key datas)

unfoldable pub section_or_empty : Option SectionInfo → SectionInfo
section_or_empty none = []
section_or_empty (some section) = section

-- `ConfigMgr::operator[]`.
unfoldable pub get_section : String → ConfigMap → SectionInfo
get_section section config = section_or_empty (lookup section config)

-- `ConfigMgr::GetValue`.
unfoldable pub value_in : String → Option SectionInfo → String
value_in key none = ""
value_in key (some datas) = section_value key datas

unfoldable pub get_value : String → String → ConfigMap → String
get_value section key config = value_in key (lookup section config)

-- The inner loop of the constructor.
unfoldable pub read_section : SectionInfo → SectionInfo → SectionInfo
read_section [] datas = datas
read_section ((key, value) ∷ pairs) datas = read_section pairs (insert key value datas)

-- The constructor's loop over the sections.
unfoldable pub read_config : List (String × SectionInfo) → ConfigMap → ConfigMap
read_config [] config = config
read_config ((section, pairs) ∷ sections) config =
    read_config sections (insert section (read_section pairs []) config)
