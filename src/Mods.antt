-- ===== src/Mods.antt =====
-- app/constants/mods.py: the gameplay modifiers, an `IntFlag`, and the masks over them.
pub mod Filter
pub mod Text
use Prim.Native.Nat.{bit_or}
use eunga_py.Prelude.{ℕ, ◌-◌, ◌^◌, List, [], ◌∷◌}

abbrev pub Mods : Type 0
Mods = ℕ

abbrev pub nomod : Mods
nomod = 0

abbrev pub nofail : Mods
nofail = 2 ^ 0

abbrev pub easy : Mods
easy = 2 ^ 1

abbrev pub touchscreen : Mods
touchscreen = 2 ^ 2

abbrev pub hidden : Mods
hidden = 2 ^ 3

abbrev pub hardrock : Mods
hardrock = 2 ^ 4

abbrev pub suddendeath : Mods
suddendeath = 2 ^ 5

abbrev pub doubletime : Mods
doubletime = 2 ^ 6

abbrev pub relax : Mods
relax = 2 ^ 7

abbrev pub halftime : Mods
halftime = 2 ^ 8

abbrev pub nightcore : Mods
nightcore = 2 ^ 9

abbrev pub flashlight : Mods
flashlight = 2 ^ 10

abbrev pub autoplay : Mods
autoplay = 2 ^ 11

abbrev pub spunout : Mods
spunout = 2 ^ 12

abbrev pub autopilot : Mods
autopilot = 2 ^ 13

abbrev pub perfect : Mods
perfect = 2 ^ 14

abbrev pub key4 : Mods
key4 = 2 ^ 15

abbrev pub key5 : Mods
key5 = 2 ^ 16

abbrev pub key6 : Mods
key6 = 2 ^ 17

abbrev pub key7 : Mods
key7 = 2 ^ 18

abbrev pub key8 : Mods
key8 = 2 ^ 19

abbrev pub fadein : Mods
fadein = 2 ^ 20

abbrev pub random : Mods
random = 2 ^ 21

abbrev pub cinema : Mods
cinema = 2 ^ 22

abbrev pub target : Mods
target = 2 ^ 23

abbrev pub key9 : Mods
key9 = 2 ^ 24

abbrev pub keycoop : Mods
keycoop = 2 ^ 25

abbrev pub key1 : Mods
key1 = 2 ^ 26

abbrev pub key3 : Mods
key3 = 2 ^ 27

abbrev pub key2 : Mods
key2 = 2 ^ 28

abbrev pub scorev2 : Mods
scorev2 = 2 ^ 29

abbrev pub mirror : Mods
mirror = 2 ^ 30

-- `for mod in Mods`: the members in the order of their values, without the zero one.
abbrev pub all_mods : List Mods
all_mods =
    nofail ∷ easy ∷ touchscreen ∷ hidden ∷ hardrock ∷ suddendeath ∷ doubletime ∷ relax ∷ halftime
    ∷ nightcore ∷ flashlight ∷ autoplay ∷ spunout ∷ autopilot ∷ perfect ∷ key4 ∷ key5 ∷ key6 ∷ key7
    ∷ key8 ∷ fadein ∷ random ∷ cinema ∷ target ∷ key9 ∷ keycoop ∷ key1 ∷ key3 ∷ key2 ∷ scorev2
    ∷ mirror ∷ []

infixl 65 ◌∣∣◌
abbrev pub ◌∣∣◌ : Mods → Mods → Mods
◌∣∣◌ = bit_or

-- `~flag` of Python 3.11, which has the 31 bits of the members
unfoldable pub inverted : Mods → Mods
inverted flag = 2 ^ 31 - 1 - flag

abbrev pub key_mods : Mods
key_mods = key1 ∣∣ key2 ∣∣ key3 ∣∣ key4 ∣∣ key5 ∣∣ key6 ∣∣ key7 ∣∣ key8 ∣∣ key9

-- `for mod in KEY_MODS`: the single flags of the mask, in the order of their values.
abbrev pub key_mod_list : List Mods
key_mod_list = key4 ∷ key5 ∷ key6 ∷ key7 ∷ key8 ∷ key9 ∷ key1 ∷ key3 ∷ key2 ∷ []

abbrev pub score_increase_mods : Mods
score_increase_mods = hidden ∣∣ hardrock ∣∣ fadein ∣∣ doubletime ∣∣ flashlight

abbrev pub speed_changing_mods : Mods
speed_changing_mods = doubletime ∣∣ nightcore ∣∣ halftime

abbrev pub osu_specific_mods : Mods
osu_specific_mods = autopilot ∣∣ spunout ∣∣ target

abbrev pub mania_specific_mods : Mods
mania_specific_mods = mirror ∣∣ random ∣∣ fadein ∣∣ key_mods
