-- ===== src/VncClient/Keys/Table.antt =====
-- src/evdev-to-qnum.c: the entries of the array of QEMU's key numbers, by the kernel's.
use wlvncc.Base.{ℕ, List, [], ◌∷◌}

-- One designated entry of the array.
pub record Row : Type 0 where
  pub code : ℕ
  pub qnum : ℕ

abbrev pub row : ℕ → ℕ → Row
row code qnum = record { code = code; qnum = qnum }

-- The entries up to KEY_HP (0x7c) or so, and the others.
abbrev pub first_rows : List Row
first_rows =
    row 1 1
    ∷ row 2 2
    ∷ row 3 3
    ∷ row 4 4
    ∷ row 5 5
    ∷ row 6 6
    ∷ row 7 7
    ∷ row 8 8
    ∷ row 9 9
    ∷ row 10 10
    ∷ row 11 11
    ∷ row 12 12
    ∷ row 13 13
    ∷ row 14 14
    ∷ row 15 15
    ∷ row 16 16
    ∷ row 17 17
    ∷ row 18 18
    ∷ row 19 19
    ∷ row 20 20
    ∷ row 21 21
    ∷ row 22 22
    ∷ row 23 23
    ∷ row 24 24
    ∷ row 25 25
    ∷ row 26 26
    ∷ row 27 27
    ∷ row 28 28
    ∷ row 29 29
    ∷ row 30 30
    ∷ row 31 31
    ∷ row 32 32
    ∷ row 33 33
    ∷ row 34 34
    ∷ row 35 35
    ∷ row 36 36
    ∷ row 37 37
    ∷ row 38 38
    ∷ row 39 39
    ∷ row 40 40
    ∷ row 41 41
    ∷ row 42 42
    ∷ row 43 43
    ∷ row 44 44
    ∷ row 45 45
    ∷ row 46 46
    ∷ row 47 47
    ∷ row 48 48
    ∷ row 49 49
    ∷ row 50 50
    ∷ row 51 51
    ∷ row 52 52
    ∷ row 53 53
    ∷ row 54 54
    ∷ row 55 55
    ∷ row 56 56
    ∷ row 57 57
    ∷ row 58 58
    ∷ row 59 59
    ∷ row 60 60
    ∷ row 61 61
    ∷ row 62 62
    ∷ row 63 63
    ∷ row 64 64
    ∷ row 65 65
    ∷ row 66 66
    ∷ row 67 67
    ∷ row 68 68
    ∷ row 69 69
    ∷ row 70 70
    ∷ row 71 71
    ∷ row 72 72
    ∷ row 73 73
    ∷ row 74 74
    ∷ row 75 75
    ∷ row 76 76
    ∷ row 77 77
    ∷ row 78 78
    ∷ row 79 79
    ∷ row 80 80
    ∷ row 81 81
    ∷ row 82 82
    ∷ row 83 83
    ∷ row 84 84
    ∷ row 85 118
    ∷ row 86 86
    ∷ row 87 87
    ∷ row 88 88
    ∷ row 89 115
    ∷ row 90 120
    ∷ row 91 119
    ∷ row 92 121
    ∷ row 93 112
    ∷ row 94 123
    ∷ row 95 92
    ∷ row 96 156
    ∷ row 97 157
    ∷ row 98 181
    ∷ row 99 84
    ∷ row 100 184
    ∷ row 101 91
    ∷ row 102 199
    ∷ row 103 200
    ∷ row 104 201
    ∷ row 105 203
    ∷ row 106 205
    ∷ row 107 207
    ∷ row 108 208
    ∷ row 109 209
    ∷ row 110 210
    ∷ row 111 211
    ∷ row 112 239
    ∷ row 113 160
    ∷ row 114 174
    ∷ row 115 176
    ∷ row 116 222
    ∷ row 117 89
    ∷ row 118 206
    ∷ row 119 198
    ∷ row 120 139
    ∷ []

abbrev pub other_rows : List Row
other_rows =
    row 121 126
    ∷ row 122 114
    ∷ row 123 113
    ∷ row 124 125
    ∷ row 125 219
    ∷ row 126 220
    ∷ row 127 221
    ∷ row 128 232
    ∷ row 129 133
    ∷ row 130 134
    ∷ row 131 135
    ∷ row 132 140
    ∷ row 133 248
    ∷ row 134 100
    ∷ row 135 101
    ∷ row 136 193
    ∷ row 137 188
    ∷ row 138 245
    ∷ row 139 158
    ∷ row 140 161
    ∷ row 141 102
    ∷ row 142 223
    ∷ row 143 227
    ∷ row 144 103
    ∷ row 145 104
    ∷ row 146 105
    ∷ row 147 147
    ∷ row 148 159
    ∷ row 149 151
    ∷ row 150 130
    ∷ row 151 106
    ∷ row 152 146
    ∷ row 153 107
    ∷ row 154 166
    ∷ row 155 236
    ∷ row 156 230
    ∷ row 157 235
    ∷ row 158 234
    ∷ row 159 233
    ∷ row 160 163
    ∷ row 161 108
    ∷ row 162 253
    ∷ row 163 153
    ∷ row 164 162
    ∷ row 165 144
    ∷ row 166 164
    ∷ row 167 177
    ∷ row 168 152
    ∷ row 169 99
    ∷ row 171 129
    ∷ row 172 178
    ∷ row 173 231
    ∷ row 176 136
    ∷ row 177 117
    ∷ row 178 143
    ∷ row 179 246
    ∷ row 180 251
    ∷ row 181 137
    ∷ row 182 138
    ∷ row 183 93
    ∷ row 184 94
    ∷ row 185 95
    ∷ row 186 85
    ∷ row 187 131
    ∷ row 188 247
    ∷ row 189 132
    ∷ row 190 90
    ∷ row 191 116
    ∷ row 192 249
    ∷ row 193 109
    ∷ row 194 111
    ∷ row 195 149
    ∷ row 196 150
    ∷ row 197 154
    ∷ row 198 155
    ∷ row 199 167
    ∷ row 200 168
    ∷ row 201 169
    ∷ row 202 171
    ∷ row 203 172
    ∷ row 204 173
    ∷ row 205 165
    ∷ row 206 175
    ∷ row 207 179
    ∷ row 208 180
    ∷ row 209 182
    ∷ row 210 185
    ∷ row 211 186
    ∷ row 212 187
    ∷ row 213 189
    ∷ row 214 190
    ∷ row 215 191
    ∷ row 216 192
    ∷ row 217 229
    ∷ row 218 194
    ∷ row 219 195
    ∷ row 220 196
    ∷ row 221 197
    ∷ row 222 148
    ∷ row 223 202
    ∷ row 224 204
    ∷ row 225 212
    ∷ row 226 237
    ∷ row 227 214
    ∷ row 228 215
    ∷ row 229 216
    ∷ row 230 217
    ∷ row 231 218
    ∷ row 232 228
    ∷ row 233 142
    ∷ row 234 213
    ∷ row 235 240
    ∷ row 236 241
    ∷ row 237 242
    ∷ row 238 243
    ∷ row 239 244
    ∷ []
