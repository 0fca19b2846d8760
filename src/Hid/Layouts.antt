-- ===== src/Hid/Layouts.antt =====
-- server/src/hid.rs: `get_char_map`, the keys that type each character. An entry is a code point, the
-- modifiers (2 for shift, 64 for AltGr) and the key's usage code.
use rustykvm.Prelude.{ℕ, String, str_eq, Option, none, some, List, [], ◌∷◌, ◌==◌, if◌then◌else◌}

abbrev pub KeyEntry : Type 0
KeyEntry = ℕ × ℕ × ℕ

-- `base_chars`, the US layout.
abbrev pub base_chars : List KeyEntry
base_chars =
    (97, 0, 4)
    ∷ (98, 0, 5)
    ∷ (99, 0, 6)
    ∷ (100, 0, 7)
    ∷ (101, 0, 8)
    ∷ (102, 0, 9)
    ∷ (103, 0, 10)
    ∷ (104, 0, 11)
    ∷ (105, 0, 12)
    ∷ (106, 0, 13)
    ∷ (107, 0, 14)
    ∷ (108, 0, 15)
    ∷ (109, 0, 16)
    ∷ (110, 0, 17)
    ∷ (111, 0, 18)
    ∷ (112, 0, 19)
    ∷ (113, 0, 20)
    ∷ (114, 0, 21)
    ∷ (115, 0, 22)
    ∷ (116, 0, 23)
    ∷ (117, 0, 24)
    ∷ (118, 0, 25)
    ∷ (119, 0, 26)
    ∷ (120, 0, 27)
    ∷ (121, 0, 28)
    ∷ (122, 0, 29)
    ∷ (65, 2, 4)
    ∷ (66, 2, 5)
    ∷ (67, 2, 6)
    ∷ (68, 2, 7)
    ∷ (69, 2, 8)
    ∷ (70, 2, 9)
    ∷ (71, 2, 10)
    ∷ (72, 2, 11)
    ∷ (73, 2, 12)
    ∷ (74, 2, 13)
    ∷ (75, 2, 14)
    ∷ (76, 2, 15)
    ∷ (77, 2, 16)
    ∷ (78, 2, 17)
    ∷ (79, 2, 18)
    ∷ (80, 2, 19)
    ∷ (81, 2, 20)
    ∷ (82, 2, 21)
    ∷ (83, 2, 22)
    ∷ (84, 2, 23)
    ∷ (85, 2, 24)
    ∷ (86, 2, 25)
    ∷ (87, 2, 26)
    ∷ (88, 2, 27)
    ∷ (89, 2, 28)
    ∷ (90, 2, 29)
    ∷ (49, 0, 30)
    ∷ (50, 0, 31)
    ∷ (51, 0, 32)
    ∷ (52, 0, 33)
    ∷ (53, 0, 34)
    ∷ (54, 0, 35)
    ∷ (55, 0, 36)
    ∷ (56, 0, 37)
    ∷ (57, 0, 38)
    ∷ (48, 0, 39)
    ∷ (33, 2, 30)
    ∷ (64, 2, 31)
    ∷ (35, 2, 32)
    ∷ (36, 2, 33)
    ∷ (37, 2, 34)
    ∷ (94, 2, 35)
    ∷ (38, 2, 36)
    ∷ (42, 2, 37)
    ∷ (40, 2, 38)
    ∷ (41, 2, 39)
    ∷ (10, 0, 40)
    ∷ (9, 0, 43)
    ∷ (32, 0, 44)
    ∷ (45, 0, 45)
    ∷ (61, 0, 46)
    ∷ (91, 0, 47)
    ∷ (93, 0, 48)
    ∷ (92, 0, 49)
    ∷ (59, 0, 51)
    ∷ (39, 0, 52)
    ∷ (96, 0, 53)
    ∷ (44, 0, 54)
    ∷ (46, 0, 55)
    ∷ (47, 0, 56)
    ∷ (95, 2, 45)
    ∷ (43, 2, 46)
    ∷ (123, 2, 47)
    ∷ (125, 2, 48)
    ∷ (124, 2, 49)
    ∷ (58, 2, 51)
    ∷ (34, 2, 52)
    ∷ (126, 2, 53)
    ∷ (60, 2, 54)
    ∷ (62, 2, 55)
    ∷ (63, 2, 56)
    ∷ []

-- What the German layout inserts.
abbrev pub de_chars : List KeyEntry
de_chars =
    (121, 0, 29)
    ∷ (89, 2, 29)
    ∷ (122, 0, 28)
    ∷ (90, 2, 28)
    ∷ (228, 0, 52)
    ∷ (196, 2, 52)
    ∷ (246, 0, 51)
    ∷ (214, 2, 51)
    ∷ (252, 0, 47)
    ∷ (220, 2, 47)
    ∷ (223, 0, 45)
    ∷ (94, 0, 53)
    ∷ (47, 2, 36)
    ∷ (40, 2, 37)
    ∷ (38, 2, 35)
    ∷ (41, 2, 38)
    ∷ (96, 2, 46)
    ∷ (34, 2, 31)
    ∷ (63, 2, 45)
    ∷ (123, 64, 36)
    ∷ (91, 64, 37)
    ∷ (93, 64, 38)
    ∷ (125, 64, 39)
    ∷ (92, 64, 45)
    ∷ (64, 64, 20)
    ∷ (43, 0, 48)
    ∷ (42, 2, 48)
    ∷ (126, 64, 48)
    ∷ (35, 0, 49)
    ∷ (39, 2, 49)
    ∷ (60, 0, 100)
    ∷ (62, 2, 100)
    ∷ (124, 64, 100)
    ∷ (59, 2, 54)
    ∷ (58, 2, 55)
    ∷ (45, 0, 56)
    ∷ (95, 2, 56)
    ∷ (180, 0, 46)
    ∷ (176, 2, 53)
    ∷ (167, 2, 32)
    ∷ (8364, 64, 8)
    ∷ (178, 64, 31)
    ∷ (179, 64, 32)
    ∷ []

-- What the French layout inserts.
abbrev pub fr_chars : List KeyEntry
fr_chars =
    (97, 0, 20)
    ∷ (65, 2, 20)
    ∷ (113, 0, 4)
    ∷ (81, 2, 4)
    ∷ (122, 0, 26)
    ∷ (90, 2, 26)
    ∷ (119, 0, 29)
    ∷ (87, 2, 29)
    ∷ (109, 0, 51)
    ∷ (77, 2, 51)
    ∷ (49, 2, 30)
    ∷ (50, 2, 31)
    ∷ (51, 2, 32)
    ∷ (52, 2, 33)
    ∷ (53, 2, 34)
    ∷ (54, 2, 35)
    ∷ (55, 2, 36)
    ∷ (56, 2, 37)
    ∷ (57, 2, 38)
    ∷ (48, 2, 39)
    ∷ (38, 0, 30)
    ∷ (233, 0, 31)
    ∷ (34, 0, 32)
    ∷ (39, 0, 33)
    ∷ (40, 0, 34)
    ∷ (45, 0, 35)
    ∷ (232, 0, 36)
    ∷ (95, 0, 37)
    ∷ (231, 0, 38)
    ∷ (224, 0, 39)
    ∷ (41, 0, 45)
    ∷ (176, 2, 45)
    ∷ (94, 0, 47)
    ∷ (168, 2, 47)
    ∷ (36, 0, 48)
    ∷ (163, 2, 48)
    ∷ (42, 0, 49)
    ∷ (181, 2, 49)
    ∷ (249, 0, 52)
    ∷ (37, 2, 52)
    ∷ (44, 0, 16)
    ∷ (63, 2, 16)
    ∷ (59, 0, 54)
    ∷ (46, 2, 54)
    ∷ (58, 0, 55)
    ∷ (47, 2, 55)
    ∷ (33, 0, 56)
    ∷ (167, 2, 56)
    ∷ (126, 64, 31)
    ∷ (35, 64, 32)
    ∷ (123, 64, 33)
    ∷ (91, 64, 34)
    ∷ (124, 64, 35)
    ∷ (96, 64, 36)
    ∷ (92, 64, 37)
    ∷ (93, 64, 45)
    ∷ (125, 64, 46)
    ∷ (64, 64, 39)
    ∷ (8364, 64, 8)
    ∷ []

-- `HashMap<char, (u8, u8)>`: the newest entry of a character stands first and is the one that counts.
unfoldable pub insert_all : List KeyEntry → List KeyEntry → List KeyEntry
insert_all [] m = m
insert_all (e ∷ entries) m = insert_all entries (e ∷ m)

unfoldable pub get_char_map : String → List KeyEntry
unfolding insert_all
get_char_map lang =
    let m = insert_all base_chars [] in
    if str_eq lang "de"
    then insert_all de_chars m
    else if str_eq lang "fr"
    then insert_all fr_chars m
    else m

unfoldable pub get_key : ℕ → List KeyEntry → Option (ℕ × ℕ)
get_key c [] = none
get_key c ((d, mods, key) ∷ m) = let rest = get_key c m in if c == d then some (mods, key) else rest
